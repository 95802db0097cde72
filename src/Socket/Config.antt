-- ===== src/Socket/Config.antt =====
-- Reading the table of sockets back from its text.
use cpp_hiredis_cluster.Base.{
  ℕ, zero, suc, ◌≤◌, Bool, true, false, ◌&&◌, List, [], ◌∷◌, ◌++◌, Option, none, some, ◌≡◌, ◌≢◌,
  refl, ap, ◌∙◌, ◌==◌, if◌then◌else◌, length, arith, length-append,
}
use cpp_hiredis_cluster.Base.Search.{Avoids}
use cpp_hiredis_cluster.Text.{Text, text_ltb}
use cpp_hiredis_cluster.Text.Laws.{text_ltb_asym, text_ltb_trans}
use cpp_hiredis_cluster.Container.OrderedMap.{map_at, map_insert}
use cpp_hiredis_cluster.Socket.{
  SocketTable, up_to, behind, getline, add_value, add_key, read_lines, read_config,
}

abbrev pub same_key : Text → Text → Bool
same_key [] [] = true
same_key (x ∷ s) (y ∷ t) = (x == y) && same_key s t
same_key s t = false

same_key_refl : (s : Text) → same_key s s ≡ true
same_key_refl [] = refl
same_key_refl (x ∷ s) = ground (arith, same_key_refl s)

same_key_less : (s t : Text) → text_ltb s t ≡ true → same_key s t ≡ false
unfolding text_ltb
same_key_less [] [] h = cc
same_key_less [] (y ∷ t) h = refl
same_key_less (x ∷ s) [] h = cc
same_key_less (x ∷ s) (y ∷ t) h = ground (arith, same_key_less s t)

same_key_more : (s t : Text) → text_ltb t s ≡ true → same_key s t ≡ false
unfolding text_ltb
same_key_more [] [] h = cc
same_key_more [] (y ∷ t) h = cc
same_key_more (x ∷ s) [] h = refl
same_key_more (x ∷ s) (y ∷ t) h = ground (arith, same_key_more s t)

same_key_neither : (s t : Text) → text_ltb s t ≡ false → text_ltb t s ≡ false → same_key s t ≡ true
unfolding text_ltb
same_key_neither [] [] h k = refl
same_key_neither [] (y ∷ t) h k = cc
same_key_neither (x ∷ s) [] h k = cc
same_key_neither (x ∷ s) (y ∷ t) h k = ground (arith, same_key_neither s t)

same_key-equal : (s t : Text) → same_key s t ≡ true → s ≡ t
same_key-equal [] [] h = refl
same_key-equal [] (y ∷ t) h = cc
same_key-equal (x ∷ s) [] h = cc
same_key-equal (x ∷ s) (y ∷ t) h = ground (arith, same_key-equal s t)

text_ltb_same :
    (s t u : Text)
    → same_key s t ≡ true
    → (text_ltb s u ≡ text_ltb t u) × (text_ltb u s ≡ text_ltb u t)
text_ltb_same s t u h =
    let e = same_key-equal s t h in (ap (λ x. text_ltb x u) e, ap (text_ltb u) e)

-- The value of the first entry with the key.
abbrev pub first_value : Text → List (Text × Text) → Option Text
first_value k [] = none
first_value k ((j, v) ∷ m) = if same_key k j then some v else first_value k m

abbrev or_else : Option Text → Option Text → Option Text
or_else none o = o
or_else (some v) o = some v

map_at-map_insert :
    (k j v : Text) (m : SocketTable)
    → map_at text_ltb k (map_insert text_ltb j v m)
      ≡ or_else (map_at text_ltb k m) (if same_key k j then some v else none)
unfolding map_at map_insert
map_at-map_insert k j v [] =
    ground (arith, same_key_less k j, same_key_more k j, same_key_neither k j)
map_at-map_insert k j v ((i, u) ∷ m) = ground (
  arith,
  same_key_less k j,
  same_key_more k j,
  same_key_neither k j,
  text_ltb_trans k j i,
  text_ltb_trans j i k,
  text_ltb_trans i k j,
  text_ltb_trans i j k,
  text_ltb_trans k i j,
  text_ltb_trans j k i,
  text_ltb_asym i j,
  text_ltb_asym i k,
  text_ltb_asym j k,
  text_ltb_asym k j,
  map_at-map_insert k j v m,
  text_ltb_same k j i,
  text_ltb_same i j k,
  same_key_neither i j,
)

up_to-append :
    (d : ℕ) (l r : Text)
    → Avoids d l
    → (up_to d (l ++ d ∷ r) ≡ l) × (behind d (l ++ d ∷ r) ≡ r) × (up_to d l ≡ l)
unfolding up_to behind
up_to-append d [] r a = ground arith
up_to-append d (x ∷ l) r a = ground (arith, up_to-append d l r a.1)

getline-append : (d : ℕ) (l r : Text) → Avoids d l → getline d (l ++ d ∷ r) ≡ some (l, r)
unfolding getline
getline-append d [] r a = let e = up_to-append d [] r a in rw (e.0, e.1) refl
getline-append d (x ∷ l) r a = let e = up_to-append d (x ∷ l) r a in rw (e.0, e.1) refl

-- A line of the table.
abbrev pub line : Text → Text → Text
line key value = key ++ b'=' ∷ value

abbrev pub print_config : List (Text × Text) → Text
print_config [] = []
print_config ((key, value) ∷ entries) = line key value ++ b'\n' ∷ print_config entries

-- An address and a file name that a line can hold.
abbrev pub IsEntry : Text × Text → Type 0
IsEntry (key, value) = Avoids b'=' key × Avoids b'\n' key × Avoids b'\n' value × (value ≢ [])

abbrev pub AreEntries : List (Text × Text) → Type 0
AreEntries [] = Unit {0}
AreEntries (e ∷ entries) = IsEntry e × AreEntries entries

Avoids-append : (d : ℕ) (s t : Text) → Avoids d s → Avoids d t → Avoids d (s ++ t)
Avoids-append d [] t a b = b
Avoids-append d (x ∷ s) t a b = (a.0, Avoids-append d s t a.1 b)

Avoids-line : (key value : Text) → IsEntry (key, value) → Avoids b'\n' (line key value)
Avoids-line key value e = Avoids-append b'\n' key _ e.1 ((λ h. omega (arith, h)), e.2)

add_value-rest :
    (key value : Text) (table : SocketTable)
    → Avoids b'\n' value
    → value ≢ []
    → add_value key (getline b'\n' value) table ≡ map_insert text_ltb key value table
unfolding add_value getline
add_value-rest key [] table a h = absurd (h refl)
add_value-rest key (x ∷ s) table a h = rw (up_to-append b'\n' (x ∷ s) [] a).2 refl

add_key-line :
    (key value : Text) (table : SocketTable)
    → IsEntry (key, value)
    → add_key (getline b'=' (line key value)) table ≡ map_insert text_ltb key value table
unfolding add_key
add_key-line key value table e =
    rw (getline-append b'=' key value e.0) (add_value-rest key value table e.2 e.3)

or_else_assoc : (a b c : Option Text) → or_else (or_else a b) c ≡ or_else a (or_else b c)
or_else_assoc none b c = refl
or_else_assoc (some v) b c = refl

or_else_first :
    (same : Bool) (v : Text) (o : Option Text)
    → or_else (if same then some v else none) o ≡ (if same then some v else o)
or_else_first true v o = refl
or_else_first false v o = refl

read_lines-getline :
    (rounds : ℕ) (text l r : Text) (table : SocketTable)
    → getline b'\n' text ≡ some (l, r)
    → read_lines (suc rounds) text table ≡ read_lines rounds r (add_key (getline b'=' l) table)
unfolding read_lines
read_lines-getline rounds text l r table e = rw (e, read_lines) refl

read_lines-print_config :
    (entries : List (Text × Text)) (rounds : ℕ) (k : Text) (table : SocketTable)
    → AreEntries entries
    → length (print_config entries) ≤ rounds
    → map_at text_ltb k (read_lines rounds (print_config entries) table)
      ≡ or_else (map_at text_ltb k table) (first_value k entries)
unfolding read_lines getline
read_lines-print_config [] zero k table a enough = ground arith
read_lines-print_config [] (suc rounds) k table a enough = ground arith
read_lines-print_config ((key, value) ∷ entries) zero k table a enough =
    absurd (omega (arith, length-append (line key value) (b'\n' ∷ print_config entries)))
read_lines-print_config ((key, value) ∷ entries) (suc rounds) k table a enough =
    ap (map_at text_ltb k) (
      read_lines-getline rounds _ (line key value) (print_config entries) table
        (getline-append b'\n' (line key value) (print_config entries) (Avoids-line key value a.0)))
    ∙ rw (add_key-line key value table a.0) (
        read_lines-print_config entries rounds k _ a.1
          (omega (arith, enough, length-append (line key value) (b'\n' ∷ print_config entries)))
        ∙ ap (λ o. or_else o (first_value k entries)) (map_at-map_insert k key value table)
        ∙ or_else_assoc (map_at text_ltb k table) _ (first_value k entries)
        ∙ ap (or_else (map_at text_ltb k table))
            (or_else_first (same_key k key) value (first_value k entries)))

-- The table that is read from a text with one line for each entry finds, for any address, the file
-- of the first entry with this address, and nothing if no entry has it. This is for entries whose
-- address has neither `=` nor a line's end, and whose file name is not empty and has no line's end.
pub read_config-print_config :
    (entries : List (Text × Text)) (k : Text)
    → AreEntries entries
    → map_at text_ltb k (read_config (print_config entries)) ≡ first_value k entries
unfolding read_config map_at
read_config-print_config entries k a =
    read_lines-print_config entries (length (print_config entries)) k [] a (omega arith)

length-behind : (d : ℕ) (s : Text) → length (behind d s) ≤ length s
unfolding behind
length-behind d [] = omega arith
length-behind d (x ∷ s) = ground (arith, length-behind d s)

-- The loop ends by itself: for any text, all numbers of rounds from its length on give the same
-- table.
pub read_lines_enough :
    (m n : ℕ) (text : Text) (table : SocketTable)
    → length text ≤ m
    → length text ≤ n
    → read_lines m text table ≡ read_lines n text table
unfolding read_lines getline behind
read_lines_enough zero zero text table h k = refl
read_lines_enough zero (suc n) [] table h k = refl
read_lines_enough zero (suc n) (x ∷ s) table h k = absurd (omega arith)
read_lines_enough (suc m) zero [] table h k = refl
read_lines_enough (suc m) zero (x ∷ s) table h k = absurd (omega arith)
read_lines_enough (suc m) (suc n) [] table h k = refl
read_lines_enough (suc m) (suc n) (x ∷ s) table h k =
    read_lines_enough m n (if x == b'\n' then s else behind b'\n' s) _
      (ground (arith, length-behind b'\n' s)) (ground (arith, length-behind b'\n' s))
