-- ===== src/Classifica/Entropia/Minimo.antt =====
-- The choice of `entropia_transform_minima` of bench/perfil_dataset.py.
use engine_motor.Prelude.{
  ℕ, ◌≤◌, ◌≡◌, Bool, true, false, Bool-cases, inl, inr, Option, none, some, List, [], ◌∷◌, All,
  All-append, All-split, ltb, if◌then◌else◌, arith,
}
use engine_motor.Classifica.Entropia.{
  Candidato, candidatos, menor, menor_de, todos_candidatos, larguras, entropia_transform_minima,
}

module _ (entropia : List ℕ → ℕ) where
  -- The result is one of the candidates, and none is below it.
  abbrev pub Below : Option Candidato → Candidato → Type 0
  Below none c = ⊥
  Below (some m) c = m.valor ≤ c.valor

  menor-Below :
      (melhor : Option Candidato) (c d : Candidato)
      → Below melhor d
      → Below (menor entropia melhor c) d
  unfolding menor
  menor-Below none c d h = elim h [ ]
  menor-Below (some m) c d h = elim (Bool-cases (ltb c.valor m.valor)) [
    | inl e ↦ rw e (le_trans c.valor m.valor d.valor e h)
    | inr e ↦ rw e h
  ]
    where
      le_trans : (x y z : ℕ) → ltb x y ≡ true → y ≤ z → x ≤ z
      le_trans x y z e h = ground arith

  menor-Below_new : (melhor : Option Candidato) (c : Candidato) → Below (menor entropia melhor c) c
  unfolding menor
  menor-Below_new none c = omega arith
  menor-Below_new (some m) c = elim (Bool-cases (ltb c.valor m.valor)) [
    | inl e ↦ rw e (omega arith)
    | inr e ↦ rw e (ge_of_not (c.valor) (m.valor) e)
  ]
    where
      ge_of_not : (x y : ℕ) → ltb x y ≡ false → y ≤ x
      ge_of_not x y e = ground arith

  menor_de-Below :
      (cs : List Candidato) (melhor : Option Candidato) (d : Candidato)
      → Below melhor d
      → Below (menor_de entropia cs melhor) d
  unfolding menor_de
  menor_de-Below [] melhor d h = h
  menor_de-Below (c ∷ cs) melhor d h =
      menor_de-Below cs (menor entropia melhor c) d (menor-Below melhor c d h)

  menor_de-All :
      (cs : List Candidato) (melhor : Option Candidato)
      → All (Below (menor_de entropia cs melhor)) cs
  unfolding menor_de
  menor_de-All [] melhor = tt
  menor_de-All (c ∷ cs) melhor = (
    menor_de-Below cs (menor entropia melhor c) c (menor-Below_new melhor c),
    menor_de-All cs (menor entropia melhor c),
  )

  larguras-Below :
      (b ws : List ℕ) (melhor : Option Candidato) (d : Candidato)
      → Below melhor d
      → Below (larguras entropia b ws melhor) d
  unfolding larguras
  larguras-Below b [] melhor d h = h
  larguras-Below b (w ∷ ws) melhor d h =
      larguras-Below b ws (menor_de entropia (candidatos entropia b w) melhor) d
        (menor_de-Below (candidatos entropia b w) melhor d h)

  larguras-All :
      (b ws : List ℕ) (melhor : Option Candidato)
      → All (Below (larguras entropia b ws melhor)) (todos_candidatos entropia b ws)
  unfolding larguras
  larguras-All b [] melhor = tt
  larguras-All b (w ∷ ws) melhor =
      let cs = candidatos entropia b w in
      let next = menor_de entropia cs melhor in
      All-append (Below (larguras entropia b ws next)) cs (todos_candidatos entropia b ws)
        (kept cs (menor_de-All cs melhor)) (larguras-All b ws next)
    where
      next : Option Candidato
      next = menor_de entropia (candidatos entropia b w) melhor

      kept :
          (cs : List Candidato) → All (Below next) cs → All (Below (larguras entropia b ws next)) cs
      kept [] h = tt
      kept (c ∷ cs) h = (larguras-Below b ws next c h.0, kept cs h.1)

  -- What holds of every candidate holds of the one in hand.
  abbrev pub Holds {κ} : (Candidato → Type κ) → Option Candidato → Type κ
  Holds P none = Unit
  Holds P (some m) = P m

  menor_de-Holds {κ} :
      (P : Candidato → Type κ) (cs : List Candidato) (melhor : Option Candidato)
      → All P cs
      → Holds P melhor
      → Holds P (menor_de entropia cs melhor)
  unfolding menor_de
  menor_de-Holds P [] melhor h k = k
  menor_de-Holds P (c ∷ cs) melhor h k =
      menor_de-Holds P cs (menor entropia melhor c) h.1 (one melhor k)
    where
      pick : (t : Bool) (m : Candidato) → P m → Holds P (if t then some c else some m)
      pick true m k = h.0
      pick false m k = k

      one : (o : Option Candidato) → Holds P o → Holds P (menor entropia o c)
      one none k = h.0
      one (some m) k = pick (ltb c.valor m.valor) m k

  larguras-Holds {κ} :
      (P : Candidato → Type κ) (b ws : List ℕ) (melhor : Option Candidato)
      → All P (todos_candidatos entropia b ws)
      → Holds P melhor
      → Holds P (larguras entropia b ws melhor)
  unfolding larguras
  larguras-Holds P b [] melhor h k = k
  larguras-Holds P b (w ∷ ws) melhor h k =
      let (here, later) =
        All-split P (candidatos entropia b w) (todos_candidatos entropia b ws) h in
      larguras-Holds P b ws (menor_de entropia (candidatos entropia b w) melhor) later
        (menor_de-Holds P (candidatos entropia b w) melhor here k)

  -- The transform that is returned is one of the candidates (what holds of them all holds of it),
  -- and no candidate has a lower entropy; if there is a candidate, one is returned.
  pub entropia_transform_minima-All {κ} :
      (P : Candidato → Type κ) (b : List ℕ)
      → All P (todos_candidatos entropia b (1 ∷ 2 ∷ 4 ∷ 8 ∷ []))
      → Holds P (entropia_transform_minima entropia b)
        × All
            (Below (entropia_transform_minima entropia b))
            (todos_candidatos entropia b (1 ∷ 2 ∷ 4 ∷ 8 ∷ []))
  unfolding entropia_transform_minima
  entropia_transform_minima-All P b h =
      (larguras-Holds P b (1 ∷ 2 ∷ 4 ∷ 8 ∷ []) none h tt, larguras-All b (1 ∷ 2 ∷ 4 ∷ 8 ∷ []) none)
