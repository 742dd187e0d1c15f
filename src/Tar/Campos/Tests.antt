-- ===== src/Tar/Campos/Tests.antt =====
-- Two records of pax, one of length zero, and sizes in octal and in base 256.
use engine_motor.Prelude.{ℕ, ◌≡◌, refl, List, [], ◌∷◌, ◌++◌}
use engine_motor.Prelude.Texts.{codes}
use engine_motor.Tar.Campos.{inteiro, tamanho_tar, registros, grupo_de}
use engine_motor.Tar.Campos.Fim.{bom, erro_de_valor, negativo, sem_fim}
use engine_motor.Tar.Campos.Registros.{Registro, registros_zero}

abbrev como_esta : List ℕ → List ℕ
como_esta xs = xs

abbrev do_nome : Registro
do_nome = record { tamanho = codes "12"; chave = codes "path"; valor = codes "a/b" }

abbrev do_tamanho : Registro
do_tamanho = record { tamanho = codes "11"; chave = codes "size"; valor = codes "70" }

registros_zero_example : registros como_esta 1000 (codes "0 " ++ codes "a=b") 0 [] ≡ sem_fim
registros_zero_example = registros_zero como_esta 1000 (codes "a=b") []

octal : tamanho_tar (codes "00000001750" ++ 0 ∷ []) ≡ bom 1000
unfolding tamanho_tar
octal = refl

binary : tamanho_tar (0x80 ∷ 0 ∷ 0 ∷ 0 ∷ 0 ∷ 0 ∷ 0 ∷ 0 ∷ 0 ∷ 1 ∷ 0 ∷ 2 ∷ []) ≡ bom 65538
unfolding tamanho_tar
binary = refl

forms :
    (inteiro 8 (codes " +0o1_7 ") ≡ bom 15)
    × (inteiro 10 (codes "-5") ≡ negativo)
    × (inteiro 10 (codes "1__2") ≡ erro_de_valor)
unfolding inteiro
forms = (refl, refl, refl)

groups :
    (grupo_de como_esta (codes "linux/Makefile") ≡ (codes "raiz", codes "_"))
    × (grupo_de como_esta (codes "linux/fs/inode.c") ≡ (codes "fs", codes "_"))
    × (grupo_de como_esta (codes "linux/fs/ext4/dir.c") ≡ (codes "fs", codes "ext4"))
unfolding grupo_de
groups = (refl, refl, refl)
