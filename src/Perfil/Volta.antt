-- ===== src/Perfil/Volta.antt =====
-- The recursion of `fd_dir` in bench/perfil_dataset.py.
use engine_motor.Prelude.{
  positive, ℕ, zero, suc, ◌≡◌, ◌<◌, refl, Option, none, some, List, get_elem?, subst, ◌==◌, inl,
  inr, arith, Option-cases, if_case,
}
use engine_motor.Scan.{Nome}
use engine_motor.Perfil.Descritores.{
  Sistema, Resposta, ok, falha, excecao, indice, sem_rodadas, LeitorPerfil, chamar, no_cache,
  abrir_dir, fora_do_cache, buscar_dir, fd_dir,
}
use engine_motor.Perfil.Contagem.{
  conta, IsTidy, Volta, dir_aberto-Volta, in_cache, ok_inj, ok-ne-sem_rodadas, ok-ne-excecao,
}

module _ (base : List ℕ) where
  module _ (sis : Sistema) (raiz_fd : ℕ) (dirs : List (ℕ × Nome)) where
    abrir_dir-Volta :
        (did pai : ℕ) (nome : Nome) (s : LeitorPerfil) (r : Resposta ℕ) (s' : LeitorPerfil)
        → pai < did
        → no_cache did s.cache ≡ none
        → Volta base pai s r s'
        → Volta base did s
            (abrir_dir sis raiz_fd dirs did nome (r, s')).0
            (abrir_dir sis raiz_fd dirs did nome (r, s')).1
    unfolding abrir_dir
    abrir_dir-Volta did pai nome s (ok fdp) s' l n v =
        let w =
          dir_aberto-Volta base did (sis.abre_dir s'.chamadas fdp nome) (chamar s')
            (record { few = v.tidy.few; tally = v.tidy.tally }) (v.fresh did l n) in
        record {
          tidy = w.tidy;
          fresh = λ k m f. w.fresh k m (v.fresh k (omega arith) f);
          usable = w.usable;
          ends = w.ends;
          calm = w.calm;
        }
    abrir_dir-Volta did pai nome s (falha m) s' l n v = record {
      tidy = v.tidy;
      fresh = λ k m f. v.fresh k (omega arith) f;
      usable = λ fd q. cc;
      ends = λ q. cc;
      calm = λ e q. cc;
    }
    abrir_dir-Volta did pai nome s indice s' l n v = record {
      tidy = v.tidy;
      fresh = λ k m f. v.fresh k (omega arith) f;
      usable = λ fd q. cc;
      ends = λ q. cc;
      calm = λ e q. cc;
    }
    abrir_dir-Volta did pai nome s (excecao e) s' l n v = absurd (v.calm e refl)
    abrir_dir-Volta did pai nome s sem_rodadas s' l n v = absurd (v.ends refl)

    -- A parent stands before its directory, as the scan numbers them, and the root is open.
    module _
        (behind : (k pai : ℕ) (nome : Nome) → 0 < k → get_elem? dirs k ≡ some (pai, nome) → pai < k)
        (root_open : 0 < conta raiz_fd base) where
      buscar_dir-Volta :
          (rec : ℕ → Resposta ℕ × LeitorPerfil) (did : ℕ) (o : Option ℕ) (s : LeitorPerfil)
          → IsTidy base s
          → no_cache did s.cache ≡ o
          → 0 < did
          → ((pai : ℕ) → pai < did → Volta base pai s (rec pai).0 (rec pai).1)
          → Volta base did s
              (buscar_dir sis raiz_fd dirs rec did o s).0
              (buscar_dir sis raiz_fd dirs rec did o s).1
      unfolding buscar_dir fora_do_cache
      buscar_dir-Volta rec did (some fd) s h e pos ih = record {
        tidy = h;
        fresh = λ k l f. f;
        usable = λ x q.
            subst (λ y. 0 < conta y s.abertos) (ok_inj q)
              (omega (arith, h.tally fd, in_cache did fd s.cache e));
        ends = λ q. cc;
        calm = λ e q. cc;
      }
      buscar_dir-Volta rec did none s h e pos ih = elim (Option-cases (get_elem? dirs did)) [
        | inl q ↦
            rw (q, fora_do_cache)
              (record {
                tidy = h;
                fresh = λ k l f. f;
                usable = λ fd q. cc;
                ends = λ q. cc;
                calm = λ e q. cc;
              })
        | inr ((pai, nome), q) ↦
            rw (q, fora_do_cache)
              (abrir_dir-Volta did pai nome s (rec pai).0 (rec pai).1 (behind did pai nome pos q) e
                (ih pai (behind did pai nome pos q)))
      ]

      pub fd_dir-Volta :
          (n did : ℕ) (s : LeitorPerfil)
          → did < n
          → IsTidy base s
          → Volta base did s (fd_dir sis raiz_fd dirs n did s).0 (fd_dir sis raiz_fd dirs n did s).1
      unfolding fd_dir
      fd_dir-Volta zero did s l h = absurd (omega arith)
      fd_dir-Volta (suc n) did s l h =
          if_case (λ (p : Resposta ℕ × LeitorPerfil). Volta base did s p.0 p.1) (did == 0)
            (ok raiz_fd, s) _
            (λ q. record {
              tidy = h;
              fresh = λ k m f. f;
              usable = λ x e.
                  subst (λ y. 0 < conta y s.abertos) (ok_inj e) (omega (arith, h.tally raiz_fd));
              ends = ok-ne-sem_rodadas raiz_fd;
              calm = ok-ne-excecao raiz_fd;
            })
            (λ q.
              buscar_dir-Volta (λ pai. fd_dir sis raiz_fd dirs n pai s) did (no_cache did s.cache) s
                h refl (positive did q) (λ pai m. fd_dir-Volta n pai s (omega arith) h))
