-- ===== src/Registry/Tests.antt =====
-- Runs of the model registry on small inputs.
use pay_shield.Prelude.{◌≡◌, refl, ◌⊎◌, none, some, List, [], ◌∷◌, String, ℕ}
use pay_shield.Registry.{
  Version, before, next_version, latest_version, Registry, Stored, production, register, promote,
  rollback, get_production_model,
}
use pay_shield.Registry.Stages.{register-promote-rollback}

abbrev three : List Version
three = (1 ∷ 2 ∷ 0 ∷ []) ∷ (1 ∷ 10 ∷ 0 ∷ []) ∷ (1 ∷ 9 ∷ 3 ∷ []) ∷ []

abbrev old : Stored String ℕ
old = record {
  version = 1 ∷ 0 ∷ 0 ∷ [];
  model = some "first";
  manifest = some (record { version = 1 ∷ 0 ∷ 0 ∷ []; details = 1 });
}

abbrev registry : Registry String ℕ
registry = record {
  versions = old ∷ [];
  staging_dir = record { current = none; manifest = none };
  production_dir = record { current = none; manifest = none };
}

abbrev grown : Registry String ℕ
grown = record registry {
  versions =
      record {
        version = 1 ∷ 1 ∷ 0 ∷ [];
        model = some "second";
        manifest = some (record { version = 1 ∷ 1 ∷ 0 ∷ []; details = 2 });
      }
      ∷ old
      ∷ [];
}

register-promote-rollback_example :
    (r2 : Registry String ℕ) × (((promote grown (1 ∷ 1 ∷ 0 ∷ []) production ≡ some r2)
        × ((get_production_model r2 ≡ some "second")
            × (r2.production_dir.manifest
                ≡ some (record { version = 1 ∷ 1 ∷ 0 ∷ []; details = 2 }))))
      × ((rollback r2 (1 ∷ 0 ∷ 0 ∷ []) ≡ none)
          ⊎ ((r3 : Registry String ℕ) × ((rollback r2 (1 ∷ 0 ∷ 0 ∷ []) ≡ some r3)
                × ((r3.production_dir.current ≡ some (1 ∷ 0 ∷ 0 ∷ []))
                    × (r3.production_dir.manifest
                        ≡ some (record { version = 1 ∷ 1 ∷ 0 ∷ []; details = 2 })))))))
unfolding register next_version latest_version before
register-promote-rollback_example =
    register-promote-rollback registry grown "second" 2 (1 ∷ 0 ∷ 0 ∷ []) (1 ∷ 1 ∷ 0 ∷ []) refl
