-- ===== src/Ulog/Generated/AppendOnly.antt =====
-- No generated function changes what is in the file before its position.
use efc.Common.{ℕ, refl, List, [], ◌∷◌, Option, none, some}
use efc.Common.Exec.{pure}
use efc.Ulog.Platform.{Platform, IsFile}
use efc.Ulog.Types.{ErrorType, invalid_param, LogPointer, null, log}
use efc.Ulog.Generated
use efc.Ulog.Generated.{Field, Definition, save_fields}
use efc.Ulog.Appends.{
  same-Over, Appends, >>=-Appends, save-Appends, pure-Appends, raise-Appends, require_phase-Appends,
}

module _ {os : Platform} (disk : IsFile os) where
  pub register_format-Appends :
      (d : Definition) (p : LogPointer) → Appends disk (Generated.register_format os d p)
  unfolding Generated.register_format
  register_format-Appends d log =
      >>=-Appends disk _ _ (require_phase-Appends disk _)
        (λ checked. >>=-Appends disk _ _ (save-Appends disk _) (λ header. save-Appends disk _))
  register_format-Appends d null = raise-Appends disk (Unit {0}) invalid_param

  pub subscribe-Appends :
      (d : Definition) (p : LogPointer) (multi_id : ℕ)
      → Appends disk (Generated.subscribe os d p multi_id)
  unfolding Generated.subscribe pure
  subscribe-Appends d log multi_id = >>=-Appends disk _ _ (require_phase-Appends disk _) (λ checked.
      >>=-Appends disk _ _ (save-Appends disk _) (λ header.
        >>=-Appends disk _ _ (save-Appends disk _) (λ multi.
          >>=-Appends disk _ _ (λ l. save-Appends disk _ l)
            (λ id.
              >>=-Appends disk _ _ (save-Appends disk _)
                (λ name l. same-Over disk _ _ refl refl)))))
  subscribe-Appends d null multi_id = raise-Appends disk ℕ invalid_param

  save_fields-Appends : (fs : List Field) (vs : List ℕ) → Appends disk (save_fields os fs vs)
  unfolding save_fields
  save_fields-Appends (f ∷ fs) (v ∷ vs) =
      >>=-Appends disk _ _ (save-Appends disk _) (λ saved. save_fields-Appends fs vs)
  save_fields-Appends (f ∷ fs) [] = pure-Appends disk ErrorType tt
  save_fields-Appends [] vs = pure-Appends disk ErrorType tt

  pub write-Appends :
      (d : Definition) (p : LogPointer) (values : Option (List ℕ)) (msg_id : ℕ)
      → Appends disk (Generated.write os d p values msg_id)
  unfolding Generated.write
  write-Appends d log (some values) msg_id =
      >>=-Appends disk _ _ (require_phase-Appends disk _) (λ checked.
        >>=-Appends disk _ _ (save-Appends disk _) (λ header.
          >>=-Appends disk _ _ (save-Appends disk _) (λ id. save_fields-Appends d.fields values)))
  write-Appends d log none msg_id = raise-Appends disk (Unit {0}) invalid_param
  write-Appends d null values msg_id = raise-Appends disk (Unit {0}) invalid_param
