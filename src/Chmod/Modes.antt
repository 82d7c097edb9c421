-- ===== src/Chmod/Modes.antt =====
-- `applyMode` and its helpers in internal/applets/shellutils/chmod/chmod.go. The twelve permission
-- bits are a Boolean for each, so `|`, `&` and `&^` go bit by bit.
pub mod Classes
pub mod Octal
use mimixbox.Prelude.{
  ℕ, zero, suc, ◌+◌, ◌-◌, ◌*◌, ◌/◌, ◌%◌, ◌≡◌, Bool, true, false, not, ◌&&◌, ◌||◌, List, [], ◌∷◌,
  ◌++◌, ltb, leb, ◌==◌, if◌then◌else◌, Option, none, some, Bytes, codes, length, Result, ok, err,
}
use mimixbox.Golang.Strings.{split}

-- The classes of users, in the order of the octal digits. The special bits belong to them: setuid to
-- the user, setgid to the group, sticky to the others.
pub data Class : Type 0 where
  user group others : Class

pub data Perm : Type 0 where
  read write execute special : Perm

abbrev pub Bits : Type 0
Bits = Class → Perm → Bool

-- A file mode: its permission bits and all the others.
pub record FileMode : Type 0 where
  pub bits : Bits
  pub rest : ℕ

pub data ModeError : Type 0 where
  empty_mode : ModeError
  invalid_octal : Bytes → ModeError
  invalid_mode : Bytes → ModeError
  invalid_perm : ℕ → ModeError

unfoldable pub mode_from_bits : FileMode → Bits → FileMode
mode_from_bits base bits = record base { bits = bits }

unfoldable pub is_octal : Bytes → Bool
is_octal [] = true
is_octal (c ∷ s) = if ltb c b'0' || ltb b'7' c then false else is_octal s

-- `strconv.ParseUint(s, 8, 32)` on octal digits, before its test of the range.
unfoldable pub octal_value : ℕ → Bytes → ℕ
octal_value n [] = n
octal_value n (c ∷ s) = octal_value (n * 8 + (c - b'0')) s

unfoldable pub is_odd : ℕ → Bool
is_odd n = n % 2 == 1

-- The bit at place `p` of a number.
unfoldable pub bit_at : ℕ → ℕ → Bool
unfolding is_odd
bit_at zero n = is_odd n
bit_at (suc p) n = bit_at p (n / 2)

unfoldable pub place_of : Class → Perm → ℕ
place_of user special = 11
place_of group special = 10
place_of others special = 9
place_of user read = 8
place_of user write = 7
place_of user execute = 6
place_of group read = 5
place_of group write = 4
place_of group execute = 3
place_of others read = 2
place_of others write = 1
place_of others execute = 0

unfoldable pub bits_of : ℕ → Bits
unfolding bit_at place_of
bits_of n c p = bit_at (place_of c p) n

-- The octal digit of three bits.
unfoldable pub digit_of : Bool → Bool → Bool → ℕ
digit_of four two one = (if four then 4 else 0) + ((if two then 2 else 0) + (if one then 1 else 0))

-- `octal`: four octal digits, the special bits first.
unfoldable pub octal : Bits → Bytes
unfolding digit_of
octal b =
    (b'0' + digit_of (b user special) (b group special) (b others special))
    ∷ (b'0' + digit_of (b user read) (b user write) (b user execute))
    ∷ (b'0' + digit_of (b group read) (b group write) (b group execute))
    ∷ (b'0' + digit_of (b others read) (b others write) (b others execute))
    ∷ []

-- The classes that a clause names.
pub record Who : Type 0 where
  pub has_u : Bool
  pub has_g : Bool
  pub has_o : Bool

unfoldable pub has : Who → Class → Bool
has w user = w.has_u
has w group = w.has_g
has w others = w.has_o

-- `whoLoop`: the classes, and the clause from the first other byte on.
unfoldable pub who_loop : Who → Bytes → Who × Bytes
who_loop w [] = (w, [])
who_loop w (c ∷ s) =
    let with_u = who_loop (record w { has_u = true }) s in
    let with_g = who_loop (record w { has_g = true }) s in
    let with_o = who_loop (record w { has_o = true }) s in
    let with_all = who_loop (record { has_u = true; has_g = true; has_o = true }) s in
    if c == b'u'
    then with_u
    else if c == b'g'
    then with_g
    else if c == b'o'
    then with_o
    else if c == b'a'
    then with_all
    else (w, c ∷ s)

unfoldable pub or_bits : Bits → Bits → Bits
or_bits a b c p = a c p || b c p

unfoldable pub grant : Perm → Bits
grant read c read = true
grant write c write = true
grant execute c execute = true
grant _ c _ = false

abbrev pub no_bits : Bits
no_bits c p = false

unfoldable pub sticky_bit : Bits
sticky_bit others special = true
sticky_bit _ _ = false

unfoldable pub set_id_bits : Who → Bool → Bits
set_id_bits w all_who user special = w.has_u || all_who
set_id_bits w all_who group special = w.has_g || all_who
set_id_bits w all_who _ _ = false

-- `cur & 0111 != 0`.
unfoldable pub any_execute : Bits → Bool
any_execute cur = cur user execute || cur group execute || cur others execute

module _ (cur : Bits) (is_dir : Bool) (w : Who) (all_who : Bool) where
  -- One byte of the loop of `permMask`.
  unfoldable pub perm_bits : ℕ → Option Bits
  unfolding grant sticky_bit set_id_bits any_execute
  perm_bits p =
      if p == b'r'
      then some (grant read)
      else if p == b'w'
      then some (grant write)
      else if p == b'x'
      then some (grant execute)
      else if p == b'X'
      then if is_dir || any_execute cur then some (grant execute) else some no_bits
      else if p == b's'
      then some (set_id_bits w all_who)
      else if p == b't'
      then some sticky_bit
      else none

  unfoldable pub perm_mask : Bits → Bytes → Result ModeError Bits
  unfolding perm_bits or_bits
  perm_mask mask [] = ok mask
  perm_mask mask (p ∷ perms) = elim (perm_bits p) [
    | none ↦ err (invalid_perm p)
    | some b ↦ perm_mask (or_bits mask b) perms
  ]

-- The operator at the end of `applyClause`; `sel` is `rwxMask | specMask`.
unfoldable pub operate : ℕ → (Class → Bool) → Bits → Bits → Bits
operate op sel perm bits c p =
    let chosen = perm c p && sel c in
    if op == b'+'
    then bits c p || chosen
    else if op == b'-'
    then bits c p && not chosen
    else (bits c p && not (sel c)) || chosen

unfoldable pub no_one : Who → Bool
no_one w = not w.has_u && not w.has_g && not w.has_o

abbrev pub everyone : Who
everyone = record { has_u = true; has_g = true; has_o = true }

-- The classes that a clause applies to.
unfoldable pub effective : Who → Who
unfolding no_one
effective w = if no_one w then everyone else w

unfoldable pub apply_op : Bits → Bytes → Bool → Who → Bytes → Result ModeError Bits
unfolding perm_mask operate effective no_one has
apply_op bits clause is_dir w [] = err (invalid_mode clause)
apply_op bits clause is_dir w (op ∷ perms) =
    if op == b'+' || op == b'-' || op == b'='
    then (elim (perm_mask bits is_dir (effective w) (no_one w) no_bits perms) [
      | err e ↦ err e
      | ok perm ↦ ok (operate op (has (effective w)) perm bits)
    ])
    else err (invalid_mode clause)

abbrev pub nobody : Who
nobody = record { has_u = false; has_g = false; has_o = false }

unfoldable pub apply_clause : Bits → Bytes → Bool → Result ModeError Bits
unfolding apply_op who_loop
apply_clause bits clause is_dir =
    let parsed : Who × Bytes = who_loop nobody clause in
    apply_op bits clause is_dir parsed.0 parsed.1

unfoldable pub apply_clauses : Bits → List Bytes → Bool → Result ModeError Bits
unfolding apply_clause
apply_clauses bits [] is_dir = ok bits
apply_clauses bits (clause ∷ clauses) is_dir = elim (apply_clause bits clause is_dir) [
  | err e ↦ err e
  | ok b ↦ apply_clauses b clauses is_dir
]

unfoldable pub apply_mode : FileMode → Bytes → Bool → Result ModeError FileMode
unfolding is_octal octal_value bits_of mode_from_bits apply_clauses split
apply_mode cur [] is_dir = err empty_mode
apply_mode cur (c ∷ mode) is_dir =
    if is_octal (c ∷ mode)
    then (let v = octal_value 0 (c ∷ mode) in
        if ltb 4095 v then err (invalid_octal (c ∷ mode)) else ok (mode_from_bits cur (bits_of v)))
    else (elim (apply_clauses cur.bits (split (c ∷ mode) (codes ",")) is_dir) [
      | err e ↦ err e
      | ok b ↦ ok (mode_from_bits cur b)
    ])
