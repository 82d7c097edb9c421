-- ===== src/Chmod/Modes/Classes.antt =====
-- The symbolic form of a mode in internal/applets/shellutils/chmod/chmod.go: `applyClause`.
use mimixbox.Prelude.{
  ℕ, ◌≡◌, refl, ◌∙◌, sym, ap, ap₂, Bool, true, false, not, ◌&&◌, ◌||◌, List, [], ◌∷◌, arith,
  if◌then◌else◌, Bytes, ok,
}
use mimixbox.Chmod.Modes.{
  Class, user, group, others, Perm, read, write, execute, special, Bits, Who, has, who_loop, nobody,
  no_bits, or_bits, grant, perm_bits, perm_mask, operate, no_one, effective, apply_op, apply_clause,
}

pub data Rwx : Type 0 where
  r w x : Rwx

pub data Operator : Type 0 where
  plus minus equals : Operator

class_byte : Class → ℕ
class_byte user = b'u'
class_byte group = b'g'
class_byte others = b'o'

operator_byte : Operator → ℕ
operator_byte plus = b'+'
operator_byte minus = b'-'
operator_byte equals = b'='

rwx_byte : Rwx → ℕ
rwx_byte r = b'r'
rwx_byte w = b'w'
rwx_byte x = b'x'

unfoldable rwx_bytes : List Rwx → Bytes
unfolding rwx_byte
rwx_bytes [] = []
rwx_bytes (p ∷ perms) = rwx_byte p ∷ rwx_bytes perms

-- The text of a clause: classes, an operator, permissions.
unfoldable pub clause_text : List Class → Operator → List Rwx → Bytes
unfolding class_byte operator_byte rwx_bytes rwx_byte
clause_text [] op perms = operator_byte op ∷ rwx_bytes perms
clause_text (c ∷ classes) op perms = class_byte c ∷ clause_text classes op perms

same_class : Class → Class → Bool
same_class user user = true
same_class group group = true
same_class others others = true
same_class _ _ = false

-- Whether a clause names a class, and whether it gives a permission.
unfoldable pub named : List Class → Class → Bool
unfolding same_class
named [] c = false
named (d ∷ classes) c = same_class d c || named classes c

is_perm : Rwx → Perm → Bool
is_perm r read = true
is_perm w write = true
is_perm x execute = true
is_perm _ _ = false

unfoldable pub given : List Rwx → Perm → Bool
unfolding is_perm
given [] p = false
given (q ∷ perms) p = is_perm q p || given perms p

-- What becomes of a bit that was `old`, by whether its class is named and its permission given.
unfoldable pub new_bit : Operator → Bool → Bool → Bool → Bool
new_bit plus old is_named is_given = old || (is_named && is_given)
new_bit minus old is_named is_given = old && not (is_named && is_given)
new_bit equals old is_named is_given = if is_named then is_given else old

marked : Who → List Class → Who
marked u [] = u
marked u (user ∷ classes) = marked (record u { has_u = true }) classes
marked u (group ∷ classes) = marked (record u { has_g = true }) classes
marked u (others ∷ classes) = marked (record u { has_o = true }) classes

who_loop-clause_text :
    (u : Who) (classes : List Class) (op : Operator) (perms : List Rwx)
    → who_loop u (clause_text classes op perms)
      ≡ (marked u classes, operator_byte op ∷ rwx_bytes perms)
unfolding who_loop clause_text class_byte operator_byte marked
who_loop-clause_text u [] plus perms = refl
who_loop-clause_text u [] minus perms = refl
who_loop-clause_text u [] equals perms = refl
who_loop-clause_text u (user ∷ classes) op perms =
    who_loop-clause_text (record u { has_u = true }) classes op perms
who_loop-clause_text u (group ∷ classes) op perms =
    who_loop-clause_text (record u { has_g = true }) classes op perms
who_loop-clause_text u (others ∷ classes) op perms =
    who_loop-clause_text (record u { has_o = true }) classes op perms

or_true : (s : Bool) → s || true ≡ true
or_true true = refl
or_true false = refl

or_false : (s : Bool) → s || false ≡ s
or_false true = refl
or_false false = refl

has-marked :
    (u : Who) (classes : List Class) (c : Class)
    → has (marked u classes) c ≡ has u c || named classes c
unfolding marked named same_class has
has-marked u [] c = sym (or_false (has u c))
has-marked u (user ∷ classes) user =
    has-marked (record u { has_u = true }) classes user ∙ sym (or_true u.has_u)
has-marked u (user ∷ classes) group = has-marked (record u { has_u = true }) classes group
has-marked u (user ∷ classes) others = has-marked (record u { has_u = true }) classes others
has-marked u (group ∷ classes) user = has-marked (record u { has_g = true }) classes user
has-marked u (group ∷ classes) group =
    has-marked (record u { has_g = true }) classes group ∙ sym (or_true u.has_g)
has-marked u (group ∷ classes) others = has-marked (record u { has_g = true }) classes others
has-marked u (others ∷ classes) user = has-marked (record u { has_o = true }) classes user
has-marked u (others ∷ classes) group = has-marked (record u { has_o = true }) classes group
has-marked u (others ∷ classes) others =
    has-marked (record u { has_o = true }) classes others ∙ sym (or_true u.has_o)

someone : (v : Who) (d : Class) → has v d ≡ true → no_one v ≡ false
unfolding no_one has
someone v user h = ground (arith, h)
someone v group h = ground (arith, h)
someone v others h = ground (arith, h)

-- A clause that names a class does not apply to all.
no_one-marked : (d : Class) (classes : List Class) → no_one (marked nobody (d ∷ classes)) ≡ false
unfolding has named same_class
no_one-marked user classes =
    someone (marked nobody (user ∷ classes)) user (has-marked nobody (user ∷ classes) user)
no_one-marked group classes =
    someone (marked nobody (group ∷ classes)) group (has-marked nobody (group ∷ classes) group)
no_one-marked others classes =
    someone (marked nobody (others ∷ classes)) others (has-marked nobody (others ∷ classes) others)

granted : Bits → List Rwx → Bits
granted mask [] = mask
granted mask (r ∷ perms) = granted (or_bits mask (grant read)) perms
granted mask (w ∷ perms) = granted (or_bits mask (grant write)) perms
granted mask (x ∷ perms) = granted (or_bits mask (grant execute)) perms

perm_mask-rwx_bytes :
    (cur : Bits) (is_dir : Bool) (u : Who) (all_who : Bool) (mask : Bits) (perms : List Rwx)
    → perm_mask cur is_dir u all_who mask (rwx_bytes perms) ≡ ok (granted mask perms)
unfolding perm_mask perm_bits rwx_bytes rwx_byte granted
perm_mask-rwx_bytes cur is_dir u all_who mask [] = refl
perm_mask-rwx_bytes cur is_dir u all_who mask (r ∷ perms) =
    perm_mask-rwx_bytes cur is_dir u all_who (or_bits mask (grant read)) perms
perm_mask-rwx_bytes cur is_dir u all_who mask (w ∷ perms) =
    perm_mask-rwx_bytes cur is_dir u all_who (or_bits mask (grant write)) perms
perm_mask-rwx_bytes cur is_dir u all_who mask (x ∷ perms) =
    perm_mask-rwx_bytes cur is_dir u all_who (or_bits mask (grant execute)) perms

or_assoc : (s t v : Bool) → (s || t) || v ≡ s || (t || v)
or_assoc true t v = refl
or_assoc false t v = refl

grant-is_perm :
    (c : Class) (p : Perm)
    → (grant read c p ≡ is_perm r p)
      × ((grant write c p ≡ is_perm w p) × (grant execute c p ≡ is_perm x p))
unfolding grant is_perm
grant-is_perm c read = (refl, (refl, refl))
grant-is_perm c write = (refl, (refl, refl))
grant-is_perm c execute = (refl, (refl, refl))
grant-is_perm c special = (refl, (refl, refl))

granted-given :
    (mask : Bits) (perms : List Rwx) (c : Class) (p : Perm)
    → granted mask perms c p ≡ mask c p || given perms p
unfolding granted given or_bits
granted-given mask [] c p = sym (or_false (mask c p))
granted-given mask (r ∷ perms) c p =
    granted-given (or_bits mask (grant read)) perms c p
    ∙ or_assoc (mask c p) (grant read c p) (given perms p)
    ∙ ap (λ t. mask c p || (t || given perms p)) (grant-is_perm c p).0
granted-given mask (w ∷ perms) c p =
    granted-given (or_bits mask (grant write)) perms c p
    ∙ or_assoc (mask c p) (grant write c p) (given perms p)
    ∙ ap (λ t. mask c p || (t || given perms p)) (grant-is_perm c p).1.0
granted-given mask (x ∷ perms) c p =
    granted-given (or_bits mask (grant execute)) perms c p
    ∙ or_assoc (mask c p) (grant execute c p) (given perms p)
    ∙ ap (λ t. mask c p || (t || given perms p)) (grant-is_perm c p).1.1

operate-new_bit :
    (op : Operator) (sel : Class → Bool) (perm bits : Bits) (c : Class) (p : Perm)
    → operate (operator_byte op) sel perm bits c p ≡ new_bit op (bits c p) (sel c) (perm c p)
unfolding operate operator_byte new_bit
operate-new_bit plus sel perm bits c p = ground arith
operate-new_bit minus sel perm bits c p = ground arith
operate-new_bit equals sel perm bits c p = ground arith

effective-marked :
    (d : Class) (classes : List Class)
    → effective (marked nobody (d ∷ classes)) ≡ marked nobody (d ∷ classes)
unfolding effective
effective-marked d classes = rw (no_one-marked d classes, effective) refl

has-nobody : (c : Class) → has nobody c ≡ false
unfolding has
has-nobody user = refl
has-nobody group = refl
has-nobody others = refl

apply_op_text :
    (bits : Bits) (clause : Bytes) (is_dir : Bool) (v : Who) (op : Operator) (perms : List Rwx)
    → apply_op bits clause is_dir v (operator_byte op ∷ rwx_bytes perms)
      ≡ ok (operate (operator_byte op) (has (effective v)) (granted no_bits perms) bits)
unfolding apply_op operator_byte
apply_op_text bits clause is_dir v plus perms =
    rw (perm_mask-rwx_bytes bits is_dir (effective v) (no_one v) no_bits perms) refl
apply_op_text bits clause is_dir v minus perms =
    rw (perm_mask-rwx_bytes bits is_dir (effective v) (no_one v) no_bits perms) refl
apply_op_text bits clause is_dir v equals perms =
    rw (perm_mask-rwx_bytes bits is_dir (effective v) (no_one v) no_bits perms) refl

-- A clause of named classes, an operator and some of r, w and x is accepted, and changes each of the
-- twelve bits as chmod means it: + sets and - clears those given to a named class, = makes the bits of
-- a named class those that are given, special bits included, and the bits of other classes stay.
pub apply_clause-clause_text :
    (bits : Bits) (d : Class) (classes : List Class) (op : Operator) (perms : List Rwx)
    (is_dir : Bool)
    → (after : Bits) × ((apply_clause bits (clause_text (d ∷ classes) op perms) is_dir ≡ ok after)
        × ((c : Class) (p : Perm)
            → after c p ≡ new_bit op (bits c p) (named (d ∷ classes) c) (given perms p)))
unfolding apply_clause
apply_clause-clause_text bits d classes op perms is_dir =
    let v = marked nobody (d ∷ classes) in
    (
      operate (operator_byte op) (has (effective v)) (granted no_bits perms) bits,
      (
        ap (λ q. apply_op bits (clause_text (d ∷ classes) op perms) is_dir q.0 q.1)
              (who_loop-clause_text nobody (d ∷ classes) op perms)
            ∙ apply_op_text bits (clause_text (d ∷ classes) op perms) is_dir v op perms,
        λ c p.
            operate-new_bit op (has (effective v)) (granted no_bits perms) bits c p
            ∙ ap₂ (λ n g. new_bit op (bits c p) n g)
                (ap (λ e. has e c) (effective-marked d classes)
                  ∙ has-marked nobody (d ∷ classes) c
                  ∙ ap (λ t. t || named (d ∷ classes) c) (has-nobody c))
                (granted-given no_bits perms c p),
      ),
    )
