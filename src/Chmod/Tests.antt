-- ===== src/Chmod/Tests.antt =====
-- Modes of chmod, and the theorems about them at concrete modes.
use mimixbox.Prelude.{◌≡◌, refl, true, false, [], ◌∷◌, codes, ok, err}
use mimixbox.Chmod.Modes.{
  Class, user, group, others, Perm, read, write, Bits, FileMode, empty_mode, octal, apply_clause,
  apply_mode,
}
use mimixbox.Chmod.Modes.Octal.{apply_mode-octal}
use mimixbox.Chmod.Modes.Classes.{
  r, x, equals, clause_text, new_bit, named, given, apply_clause-clause_text,
}

-- 0644.
abbrev plain_file : Bits
plain_file user read = true
plain_file user write = true
plain_file group read = true
plain_file others read = true
plain_file _ _ = false

shown : octal plain_file ≡ codes "0644"
unfolding octal
shown = refl

abbrev file_mode : FileMode
file_mode = record { bits = plain_file; rest = 0 }

text : clause_text (group ∷ others ∷ []) equals (r ∷ x ∷ []) ≡ codes "go=rx"
unfolding clause_text
text = refl

empty : apply_mode file_mode [] false ≡ err empty_mode
unfolding apply_mode
empty = refl

apply_mode-octal_example :
    (m : FileMode) × ((apply_mode file_mode (octal plain_file) false ≡ ok m)
      × (((c : Class) (p : Perm) → m.bits c p ≡ plain_file c p) × (m.rest ≡ file_mode.rest)))
apply_mode-octal_example = apply_mode-octal file_mode false plain_file

apply_clause-clause_text_example :
    (after : Bits) × ((apply_clause plain_file
          (clause_text (group ∷ others ∷ []) equals (r ∷ x ∷ []))
          false
        ≡ ok after)
      × ((c : Class) (p : Perm)
          → after c p
            ≡ new_bit equals
                (plain_file c p)
                (named (group ∷ others ∷ []) c)
                (given (r ∷ x ∷ []) p)))
apply_clause-clause_text_example =
    apply_clause-clause_text plain_file group (others ∷ []) equals (r ∷ x ∷ []) false
