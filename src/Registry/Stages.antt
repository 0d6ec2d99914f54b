-- ===== src/Registry/Stages.antt =====
-- ml/registry.py: what production serves after a promotion and after a rollback.
use pay_shield.Prelude.{
  ◌≡◌, refl, sym, ap, ◌∙◌, true, Option, none, some, [], ◌∷◌, ==_refl, map, Option-cases, inl, inr,
  ◌⊎◌, ◌>>=◌,
}
use pay_shield.Registry.{
  Version, same_version, next_version, Stored, Registry, production, find, stored, with_version,
  register, promote, rollback, usable, linked, put_stage, first_of, get_production_model,
  get_staging_model,
}

same_version_refl : (v : Version) → same_version v v ≡ true
same_version_refl [] = refl
same_version_refl (x ∷ xs) = rw (==_refl x) (same_version_refl xs)

module _ {A M : Type 0} where
  with_version-versions :
      (r r' : Registry A M) (a : A) (m : M) (v : Version) (n : Option Version)
      → with_version r a m n ≡ some (v, r')
      → record r { versions = stored v a m ∷ r.versions } ≡ r'
  with_version-versions r r' a m v none h = absurd (cc h)
  with_version-versions r r' a m v (some w) h =
      let given : w ≡ v = cc h in
      let left : record r { versions = stored w a m ∷ r.versions } ≡ r' = cc h in
      ap (λ x. record r { versions = stored x a m ∷ r.versions }) (sym given) ∙ left

  register-versions :
      (r r' : Registry A M) (a : A) (m : M) (v : Version)
      → register r (some a) m ≡ some (v, r')
      → record r { versions = stored v a m ∷ r.versions } ≡ r'
  unfolding register
  register-versions r r' a m v h =
      with_version-versions r r' a m v (next_version (map (λ s. s.version) r.versions)) h

  find_new :
      (r : Registry A M) (a : A) (m : M) (v : Version)
      → find (stored v a m ∷ r.versions) v ≡ some (stored v a m)
  find_new r a m v = rw (same_version_refl v) refl

  -- the registry once the version is in production
  abbrev served : Registry A M → A → M → Version → Registry A M
  served r a m v = record r {
    versions = stored v a m ∷ r.versions;
    production_dir = record {
      current = some v;
      manifest = some (record { version = v; details = m });
    };
  }

  promote_new :
      (r : Registry A M) (a : A) (m : M) (v : Version)
      → promote (record r { versions = stored v a m ∷ r.versions }) v production
        ≡ some (served r a m v)
  unfolding promote
  promote_new r a m v =
      ap
        (λ o. (o >>= λ (s : Stored A M). (s.model >>= λ b. some s)) >>= λ s.
          some
            (put_stage (record r { versions = stored v a m ∷ r.versions }) production v s.manifest))
        (find_new r a m v)

  get_production-served :
      (r : Registry A M) (a : A) (m : M) (v : Version)
      → get_production_model (served r a m v) ≡ some a
  unfolding get_production_model
  get_production-served r a m v =
      ap (λ o. first_of (o >>= λ (s : Stored A M). s.model) (get_staging_model (served r a m v)))
        (find_new r a m v)

  -- A model that is registered and then promoted is the one that production serves, and the manifest
  -- there is its own. A rollback that succeeds after that leads production to the version that it
  -- names, but leaves the manifest of the version before the rollback.
  pub register-promote-rollback :
      (r r1 : Registry A M) (a : A) (m : M) (u v : Version)
      → register r (some a) m ≡ some (v, r1)
      → (r2 : Registry A M) × (((promote r1 v production ≡ some r2)
            × ((get_production_model r2 ≡ some a)
                × (r2.production_dir.manifest ≡ some (record { version = v; details = m }))))
          × ((rollback r2 u ≡ none)
              ⊎ ((r3 : Registry A M) × ((rollback r2 u ≡ some r3)
                    × ((r3.production_dir.current ≡ some u)
                        × (r3.production_dir.manifest
                            ≡ some (record { version = v; details = m })))))))
  unfolding rollback
  register-promote-rollback r r1 a m u v h =
      let r2 = served r a m v in
      let back = λ (o : Option (Stored A M)).
        (o >>= λ s. some (record r2 { production_dir = linked r2.production_dir u none })) in
      (
        r2,
        (
          (
            ap (λ x. promote x v production) (sym (register-versions r r1 a m v h))
                ∙ promote_new r a m v,
            (get_production-served r a m v, refl),
          ),
          elim (Option-cases (usable r2 u)) [
            | inl e ↦ inl (ap back e)
            | inr (s, e) ↦ inr (
              record r2 { production_dir = linked r2.production_dir u none },
              (ap back e, (refl, refl)),
            )
          ],
        ),
      )
