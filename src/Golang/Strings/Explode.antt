-- ===== src/Golang/Strings/Explode.antt =====
-- `Split` at a separator that may be empty: then it gives the UTF-8 sequences of the text.
use mimixbox.Prelude.{ℕ, zero, suc, ◌-◌, ◌≡◌, refl, List, [], ◌∷◌, Bytes, take}
use mimixbox.Golang.Utf8.{announced, accepts_second, decode_rune}
use mimixbox.Golang.Strings.{split}

-- The sequences of a text; the first argument counts the bytes of the sequence still to pass over.
unfoldable pub explode : ℕ → Bytes → List Bytes
unfolding decode_rune announced accepts_second
explode skip [] = []
explode (suc skip) (b ∷ s) = explode skip s
explode zero (b ∷ s) =
    take (decode_rune (b ∷ s)).1 (b ∷ s) ∷ explode ((decode_rune (b ∷ s)).1 - 1) s

unfoldable pub split_any : Bytes → Bytes → List Bytes
unfolding explode split
split_any s [] = explode 0 s
split_any s (b ∷ sep) = split s (b ∷ sep)

exploded :
    split_any (b'a' ∷ 0xE3 ∷ 0x81 ∷ 0x82 ∷ 0xFF ∷ []) []
    ≡ (b'a' ∷ []) ∷ (0xE3 ∷ 0x81 ∷ 0x82 ∷ []) ∷ (0xFF ∷ []) ∷ []
unfolding split_any
exploded = refl
