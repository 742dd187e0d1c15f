-- ===== src/Dedup/Leitura.antt =====
-- The reads of `tarefa_hash_completo` and `tarefa_hash_amostra` in bench/perfil_dataset.py.
use engine_motor.Prelude.{
  positive, ℕ, zero, suc, ◌+◌, ◌*◌, ◌<◌, ◌≡◌, refl, sym, ap, ◌∙◌, true, Bool-cases, inl, inr, List,
  [], ◌∷◌, ◌++◌, length, take, drop, leb, ◌==◌, ==_iff, arith, length-take, length-drop, drop-drop,
  take_all, drop-splice,
}
use engine_motor.Bytes.{to_le}
use engine_motor.Bytes.Words.{length-to_le}
use engine_motor.Dedup.{janela_hash, mib, entrada_amostra, ler_tudo, entrada_completa}

empty_of_length : (xs : List ℕ) → length xs ≡ 0 → xs ≡ []
empty_of_length [] h = refl
empty_of_length (x ∷ xs) h = absurd (omega arith)

take-append-rest : (n : ℕ) (xs : List ℕ) → take n xs ++ drop (length (take n xs)) xs ≡ xs
take-append-rest zero xs = refl
take-append-rest (suc n) [] = refl
take-append-rest (suc n) (x ∷ xs) = rw (take-append-rest n xs)

ler_tudo-drop :
    (fuel : ℕ) (b : List ℕ) (off : ℕ) → length b < fuel + off → ler_tudo fuel b off ≡ drop off b
unfolding ler_tudo
ler_tudo-drop zero b off h = sym (empty_of_length (drop off b) (omega (arith, length-drop off b)))
ler_tudo-drop (suc fuel) b off h =
    let d = drop off b in
    let n = length (take mib d) in
    elim (Bool-cases (n == 0)) [
      | inl e ↦
          let none_left : length d ≡ 0 = omega (arith, (==_iff n 0).0 e, length-take mib d) in
          rw e (sym (empty_of_length d none_left))
      | inr e ↦
          let some_read : 0 < n = positive n e in
          let rest = ler_tudo-drop fuel b (off + n) (omega arith) in
          rw (e, rest, ← drop-drop n off b) (take-append-rest mib d)
    ]

-- The loop gives the whole file.
pub ler_tudo_all : (b : List ℕ) → ler_tudo (suc (length b)) b 0 ≡ b
ler_tudo_all b = ler_tudo-drop (suc (length b)) b 0 (omega arith)

without_prefix : (tam : ℕ) (x y : List ℕ) → to_le 8 tam ++ x ≡ to_le 8 tam ++ y → x ≡ y
without_prefix tam x y e =
    sym (drop-splice (to_le 8 tam) x 8 (length-to_le 8 tam))
    ∙ ap (λ t. drop 8 t) e
    ∙ drop-splice (to_le 8 tam) y 8 (length-to_le 8 tam)

pub entrada_completa_inj :
    (tam : ℕ) (b c : List ℕ) → entrada_completa tam b ≡ entrada_completa tam c → b ≡ c
unfolding entrada_completa
entrada_completa_inj tam b c e =
    sym (ler_tudo_all b)
    ∙ without_prefix tam (ler_tudo (suc (length b)) b 0) (ler_tudo (suc (length c)) c 0) e
    ∙ ler_tudo_all c

-- The flag of `tarefa_hash_amostra` depends on the size alone.
pub entrada_amostra_flag :
    (tam : ℕ) (b : List ℕ) → (entrada_amostra tam b).1 ≡ leb tam (3 * janela_hash)
unfolding entrada_amostra
entrada_amostra_flag tam b = elim (Bool-cases (leb tam (3 * janela_hash))) [
  | inl e ↦ rw e
  | inr e ↦ rw e
]

-- A file that is sampled whole is determined by its sample.
pub entrada_amostra_inj :
    (tam : ℕ) (b c : List ℕ)
    → leb tam (3 * janela_hash) ≡ true
    → length b ≡ tam
    → length c ≡ tam
    → (entrada_amostra tam b).0 ≡ (entrada_amostra tam c).0
    → b ≡ c
unfolding entrada_amostra
entrada_amostra_inj tam b c small lb lc e =
    let e' : to_le 8 tam ++ take tam b ≡ to_le 8 tam ++ take tam c = rw small at e in
    sym (take_all tam b (omega arith))
    ∙ without_prefix tam (take tam b) (take tam c) e'
    ∙ take_all tam c (omega arith)
