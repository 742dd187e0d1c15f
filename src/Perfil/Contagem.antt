-- ===== src/Perfil/Contagem.antt =====
-- The open descriptors of `Leitor` in bench/perfil_dataset.py.
use engine_motor.Prelude.{
  ℕ, suc, ◌+◌, ◌-◌, ◌≡◌, ◌≢◌, ◌≤◌, ◌<◌, refl, ap, ◌∙◌, false, none, some, List, [], ◌∷◌, ◌++◌,
  length, length-append, ltb, ltb→lt, subst, ◌==◌, inl, inr, arith, Bool-cases, if◌then◌else◌,
  if_case,
}
use engine_motor.Scan.{Errno}
use engine_motor.Perfil.Descritores.{
  Chamada, oserror, deu, Resposta, ok, excecao, sem_rodadas, LeitorPerfil, remover, fechar_fd,
  no_cache, por_no_cache, despejar, lembrar, dir_aberto,
}

abbrev pub conta : ℕ → List ℕ → ℕ
conta x [] = 0
conta x (y ∷ ys) = (if y == x then 1 else 0) + conta x ys

abbrev pub valores : List (ℕ × ℕ) → List ℕ
valores [] = []
valores ((k, fd) ∷ c) = fd ∷ valores c

pub conta-append : (x : ℕ) (ys zs : List ℕ) → conta x (ys ++ zs) ≡ conta x ys + conta x zs
conta-append x [] zs = omega arith
conta-append x (y ∷ ys) zs = omega (arith, conta-append x ys zs)

pub conta-remover :
    (x fd : ℕ) (ys : List ℕ) → conta x (remover fd ys) ≡ conta x ys - (if fd == x then 1 else 0)
conta-remover x fd [] = ground arith
conta-remover x fd (y ∷ ys) = ground (arith, conta-remover x fd ys)

-- A new key: one more descriptor, at the end.
por_no_cache-new :
    (did fd : ℕ) (c : List (ℕ × ℕ))
    → no_cache did c ≡ none
    → por_no_cache did fd c ≡ c ++ (did, fd) ∷ []
unfolding no_cache por_no_cache
por_no_cache-new did fd [] e = refl
por_no_cache-new did fd ((k, x) ∷ c) e = elim (Bool-cases (k == did)) [
  | inl q ↦ absurd (cc (rw q at e))
  | inr q ↦ rw q (ap (λ t. (k, x) ∷ t) (por_no_cache-new did fd c (rw q at e)))
]

valores-append : (b c : List (ℕ × ℕ)) → valores (b ++ c) ≡ valores b ++ valores c
valores-append [] c = refl
valores-append ((k, x) ∷ b) c = ap (λ t. x ∷ t) (valores-append b c)

-- `base` are the descriptors that the reader did not open; all others that are open stand in the
-- cache, which has 48 at most.
pub record IsTidy (base : List ℕ) (s : LeitorPerfil) : Type 0 where
  pub few : length s.cache ≤ 48
  pub tally : (x : ℕ) → conta x s.abertos ≡ conta x base + conta x (valores s.cache)

length-por_no_cache :
    (did fd : ℕ) (c : List (ℕ × ℕ))
    → no_cache did c ≡ none
    → length (por_no_cache did fd c) ≡ suc (length c)
length-por_no_cache did fd c e =
    ap length (por_no_cache-new did fd c e) ∙ omega (arith, length-append c ((did, fd) ∷ []))

conta-por_no_cache :
    (x did fd : ℕ) (c : List (ℕ × ℕ))
    → no_cache did c ≡ none
    → conta x (valores (por_no_cache did fd c)) ≡ conta x (valores c) + (if fd == x then 1 else 0)
conta-por_no_cache x did fd c e =
    rw (por_no_cache-new did fd c e, valores-append c ((did, fd) ∷ []))
      (omega (arith, conta-append x (valores c) (fd ∷ [])))

no_cache-por_no_cache :
    (k did fd : ℕ) (c : List (ℕ × ℕ))
    → did < k
    → no_cache k c ≡ none
    → no_cache k (por_no_cache did fd c) ≡ none
unfolding no_cache por_no_cache
no_cache-por_no_cache k did fd [] l e = ground arith
no_cache-por_no_cache k did fd ((j, x) ∷ c) l e = ground (arith, no_cache-por_no_cache k did fd c l)

small : (n : ℕ) → ltb 48 n ≡ false → n ≤ 48
small n q = ground arith

pub ok_inj : {x y : ℕ} → ok x ≡ ok y → x ≡ y
ok_inj q = cc

pub ok-ne-sem_rodadas : (x : ℕ) → ok x ≢ sem_rodadas
ok-ne-sem_rodadas x e = cc

pub ok-ne-excecao : (x : ℕ) (e : Errno) → ok x ≢ excecao e
ok-ne-excecao x e q = cc

at_the_end :
    (fd did : ℕ) (c : List (ℕ × ℕ))
    → no_cache did c ≡ none
    → 0 < conta fd (valores (por_no_cache did fd c))
at_the_end fd did c e = rw (conta-por_no_cache fd did fd c e) (ground arith)

pub in_cache : (did fd : ℕ) (c : List (ℕ × ℕ)) → no_cache did c ≡ some fd → 0 < conta fd (valores c)
unfolding no_cache
in_cache did fd [] e = cc
in_cache did fd ((k, x) ∷ c) e = ground (arith, in_cache did fd c)

module _ (base : List ℕ) where
  despejar-IsTidy :
      (c : List (ℕ × ℕ)) (s : LeitorPerfil)
      → length c ≤ 49
      → 48 < length c
      → ((x : ℕ) → conta x s.abertos ≡ conta x base + conta x (valores c))
      → IsTidy base (despejar c s)
  unfolding despejar fechar_fd
  despejar-IsTidy [] s l m t = absurd (omega arith)
  despejar-IsTidy ((k, fd) ∷ c) s l m t = record {
    few = omega arith;
    tally = λ x. omega (arith, conta-remover x fd s.abertos, t x);
  }

  -- What is put last stays when the first one goes.
  despejar_keeps :
      (b : List (ℕ × ℕ)) (did fd : ℕ) (s : LeitorPerfil)
      → 48 < length (b ++ (did, fd) ∷ [])
      → 0 < conta fd (valores (despejar (b ++ (did, fd) ∷ []) s).cache)
  unfolding despejar fechar_fd
  despejar_keeps [] did fd s h = absurd (omega arith)
  despejar_keeps ((k, x) ∷ b) did fd s h =
      rw (valores-append b ((did, fd) ∷ []), conta-append fd (valores b) (fd ∷ [])) (ground arith)

  no_cache-despejar :
      (k : ℕ) (c : List (ℕ × ℕ)) (s : LeitorPerfil)
      → no_cache k c ≡ none
      → 48 < length c
      → no_cache k (despejar c s).cache ≡ none
  unfolding despejar fechar_fd no_cache
  no_cache-despejar k [] s e h = absurd (omega arith)
  no_cache-despejar k ((j, x) ∷ c) s e h = ground arith

  -- How `fd_dir` leaves the reader: tidy, with no key above the directory that was asked for, and with
  -- the descriptor that it returns open.
  pub record Volta (did : ℕ) (s : LeitorPerfil) (r : Resposta ℕ) (s' : LeitorPerfil) : Type 0 where
    pub tidy : IsTidy base s'
    pub fresh : (k : ℕ) → did < k → no_cache k s.cache ≡ none → no_cache k s'.cache ≡ none
    pub usable : (fd : ℕ) → r ≡ ok fd → 0 < conta fd s'.abertos
    pub ends : r ≢ sem_rodadas
    pub calm : (e : Errno) → r ≢ excecao e

  -- What `lembrar` leaves.
  record Lembrado (did fd : ℕ) (s s' : LeitorPerfil) : Type 0 where
    tidy : IsTidy base s'
    kept : 0 < conta fd (valores s'.cache)
    fresh : (k : ℕ) → did < k → no_cache k s.cache ≡ none → no_cache k s'.cache ≡ none

  lembrar-Lembrado :
      (did fd : ℕ) (s : LeitorPerfil)
      → IsTidy base s
      → no_cache did s.cache ≡ none
      → Lembrado did fd s (lembrar did fd s)
  unfolding lembrar
  lembrar-Lembrado did fd s h e =
      let c = por_no_cache did fd s.cache in
      let s' : LeitorPerfil = record s { cache = c; abertos = s.abertos ++ fd ∷ [] } in
      let n = length-por_no_cache did fd s.cache e in
      let few = h.few in
      let t : (x : ℕ) → conta x s'.abertos ≡ conta x base + conta x (valores c) = λ x. omega (
        arith,
        conta-append x s.abertos (fd ∷ []),
        h.tally x,
        conta-por_no_cache x did fd s.cache e,
      ) in
      if_case (Lembrado did fd s) (ltb 48 (length c)) (despejar c s') s'
        (λ q. record {
          tidy = despejar-IsTidy c s' (omega arith) (ltb→lt 48 (length c) q) t;
          kept = rw (por_no_cache-new did fd s.cache e) (
              despejar_keeps s.cache did fd
                (record s { cache = s.cache ++ (did, fd) ∷ []; abertos = s.abertos ++ fd ∷ [] })
                (omega (arith, ltb→lt 48 (length c) q, length-append s.cache ((did, fd) ∷ []))));
          fresh = λ k l f.
              no_cache-despejar k c s' (no_cache-por_no_cache k did fd s.cache l f)
                (ltb→lt 48 (length c) q);
        })
        (λ q. record {
          tidy = record { few = small (length c) q; tally = t };
          kept = at_the_end fd did s.cache e;
          fresh = λ k l f. no_cache-por_no_cache k did fd s.cache l f;
        })

  pub dir_aberto-Volta :
      (did : ℕ) (o : Chamada ℕ) (s : LeitorPerfil)
      → IsTidy base s
      → no_cache did s.cache ≡ none
      → Volta did s (dir_aberto did o s).0 (dir_aberto did o s).1
  unfolding dir_aberto
  dir_aberto-Volta did (oserror e) s h n = record {
    tidy = h;
    fresh = λ k l f. f;
    usable = λ fd q. cc;
    ends = λ q. cc;
    calm = λ e q. cc;
  }
  dir_aberto-Volta did (deu fd) s h n =
      let m = lembrar-Lembrado did fd s h n in
      record {
        tidy = m.tidy;
        fresh = m.fresh;
        usable = λ x q.
            subst (λ y. 0 < conta y (lembrar did fd s).abertos) (ok_inj q)
              (omega (arith, m.kept, m.tidy.tally fd));
        ends = λ q. cc;
        calm = λ e q. cc;
      }
