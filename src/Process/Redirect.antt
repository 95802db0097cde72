-- ===== src/Process/Redirect.antt =====
-- `parsehostport`: the address in a redirection, and what becomes of text that holds none.
use mathlib.Core.List.{append_assoc}
use cpp_hiredis_cluster.Base.{
  ℕ, true, not, ◌==◌, ◌+◌, ◌≤◌, ◌<◌, ◌≡◌, ◌⊎◌, refl, sym, ap, ◌∙◌, inl, inr, [], ◌∷◌, ◌++◌, some,
  length, take, drop, arith, length-append, take-all, drop-append_length, take-append_length,
  length-drop, Bool-cases,
}
use cpp_hiredis_cluster.Base.Search.{Avoids, index_of-miss}
use cpp_hiredis_cluster.Text.{Text, npos, size_add, size_sub, find_char, substr, find, codes}
use cpp_hiredis_cluster.Text.Laws.{find_char-hit}
use cpp_hiredis_cluster.Effect.Reply.{Reply}
use cpp_hiredis_cluster.Effect.Monad.{ok}
use cpp_hiredis_cluster.Process.{
  parse_host_port, address_at, host_and_port, Processed, process_result, process_error, redirected,
  not_redirected, ProcessState, ask, moved, clusterdown, ready,
}

find_char_cases :
    (s : Text) (c from : ℕ) → (find_char s c from < length s) ⊎ (find_char s c from ≡ npos)
unfolding find_char
find_char_cases s c from = ground arith

-- A position one behind a hit, or 0 behind a miss: in both cases within the text.
behind-le : (s : Text) (c from : ℕ) → length s < npos → size_add (find_char s c from) 1 ≤ length s
unfolding size_add
behind-le s c from h = ground (arith, find_char_cases s c from)

substr-some :
    (s : Text) (from count : ℕ)
    → from ≤ length s
    → substr s from count ≡ some (take count (drop from s))
unfolding substr
substr-some s from count h = ground arith

ne-npos : (n m : ℕ) → n ≤ m → m < npos → not (n == npos) ≡ true
ne-npos n m h k = ground arith

address_at-ok :
    (error : Text) (host_position port_position : ℕ)
    → length error < npos
    → host_position ≤ length error
    → port_position ≤ length error
    → address_at error host_position port_position
      ≡ ok (
        take (size_sub (size_sub port_position host_position) 1) (drop host_position error),
        drop port_position error,
      )
unfolding address_at host_and_port
address_at-ok error host_position port_position h p q = rw (
  ne-npos host_position (length error) p h,
  ne-npos port_position (length error) q h,
  substr-some error host_position (size_sub (size_sub port_position host_position) 1) p,
  substr-some error port_position npos q,
  take-all npos (drop port_position error) (omega (arith, length-drop port_position error)),
)

-- The two positions are never `npos`, so the test for a failed search always passes, and the
-- substrings are taken there.
parse_at :
    (error : Text) (host_position port_position : ℕ)
    → length error < npos
    → size_add (find_char error b' ' (size_add (find_char error b' ' 0) 1)) 1 ≡ host_position
    → size_add (find_char error b':' host_position) 1 ≡ port_position
    → parse_host_port error
      ≡ ok (
        take (size_sub (size_sub port_position host_position) 1) (drop host_position error),
        drop port_position error,
      )
unfolding parse_host_port
parse_at error host_position port_position h eh ep =
    ap (λ n. address_at error n (size_add (find_char error b':' n) 1)) eh
    ∙ ap (address_at error host_position) ep
    ∙ address_at-ok error host_position port_position h
        (rw (← eh) (behind-le error b' ' (size_add (find_char error b' ' 0) 1) h))
        (rw (← ep) (behind-le error b':' host_position h))

-- `parsehostport` returns a host and a port for every text: neither its own `LogicError` nor the
-- `std::out_of_range` of `substr` is ever thrown.
pub parse_host_port-total :
    (error : Text)
    → length error < npos
    → (host : Text) × (port : Text) × (parse_host_port error ≡ ok (host, port))
parse_host_port-total error h = (_, _, parse_at error _ _ h refl refl)

-- A search that begins behind `pre`, finds `c` behind `l` and steps over it.
step_over :
    (error pre l r : Text) (c from : ℕ)
    → error ≡ pre ++ (l ++ c ∷ r)
    → from ≡ length pre
    → Avoids c l
    → length error < npos
    → size_add (find_char error c from) 1 ≡ from + length l + 1
unfolding size_add
step_over error pre l r c from shape e a h =
    let hit : find_char error c from ≡ from + length l =
      ap (λ t. find_char t c from) shape ∙ find_char-hit pre l r c from e a in
    let size = ap length shape in
    omega (arith, hit, size, length-append pre (l ++ c ∷ r), length-append l (c ∷ r))

drop_at : (error pre r : Text) (n : ℕ) → error ≡ pre ++ r → n ≡ length pre → drop n error ≡ r
drop_at error pre r n shape e = rw (shape, e) (drop-append_length pre r)

-- A redirection `KIND SLOT HOST:PORT`, with no space in the first two words and no colon in the
-- host, gives back exactly that host and port.
pub parse_host_port-redirection :
    (kind slot host port : Text)
    → Avoids b' ' kind
    → Avoids b' ' slot
    → Avoids b':' host
    → length (kind ++ b' ' ∷ (slot ++ b' ' ∷ (host ++ b':' ∷ port))) < npos
    → parse_host_port (kind ++ b' ' ∷ (slot ++ b' ' ∷ (host ++ b':' ∷ port))) ≡ ok (host, port)
unfolding size_sub
parse_host_port-redirection kind slot host port ak as' ah h =
    let error : Text = kind ++ b' ' ∷ (slot ++ b' ' ∷ (host ++ b':' ∷ port)) in
    let word : Text = kind ++ b' ' ∷ [] in
    let words : Text = kind ++ b' ' ∷ (slot ++ b' ' ∷ []) in
    let past : Text = words ++ (host ++ b':' ∷ []) in
    let by_word : error ≡ word ++ (slot ++ b' ' ∷ (host ++ b':' ∷ port)) = simp append_assoc in
    let by_words : error ≡ words ++ (host ++ b':' ∷ port) = simp append_assoc in
    let by_past : error ≡ past ++ port = simp append_assoc in
    let w : ℕ = length word in
    let ws : ℕ = length words in
    let first : size_add (find_char error b' ' 0) 1 ≡ w =
      step_over error [] kind (slot ++ b' ' ∷ (host ++ b':' ∷ port)) b' ' 0 refl refl ak h
      ∙ (omega (arith, length-append kind (b' ' ∷ []))) in
    let second : size_add (find_char error b' ' (size_add (find_char error b' ' 0) 1)) 1 ≡ ws =
      ap (λ n. size_add (find_char error b' ' n) 1) first
      ∙ step_over error word slot (host ++ b':' ∷ port) b' ' w by_word refl as' h
      ∙ (omega (
        arith,
        length-append kind (b' ' ∷ []),
        length-append kind (b' ' ∷ (slot ++ b' ' ∷ [])),
        length-append slot (b' ' ∷ []),
      )) in
    let ends : length past ≡ ws + length host + 1 =
      omega (arith, length-append words (host ++ b':' ∷ []), length-append host (b':' ∷ [])) in
    let total : length error ≡ length past + length port =
      ap length by_past ∙ length-append past port in
    let third : size_add (find_char error b':' ws) 1 ≡ length past =
      step_over error words host port b':' ws by_words refl ah h ∙ sym ends in
    let width : size_sub (size_sub (length past) ws) 1 ≡ length host = omega arith in
    parse_at error ws (length past) h second third
    ∙ ap (λ n. ok (take n (drop ws error), drop (length past) error)) width
    ∙ ap (λ t. ok (take (length host) t, drop (length past) error))
        (drop_at error words (host ++ b':' ∷ port) ws by_words refl)
    ∙ ap (λ t. ok (t, drop (length past) error)) (take-append_length host (b':' ∷ port))
    ∙ ap (λ t. ok (host, t)) (drop_at error past port (length past) by_past refl)

find_char-miss : (s : Text) (c : ℕ) → Avoids c s → find_char s c 0 ≡ npos
unfolding find_char
find_char-miss s c a = ground (arith, index_of-miss c s a)

-- Text with neither a space nor a colon is no redirection, and still is taken for one: the whole
-- text comes back as the host, and again as the port.
pub parse_host_port_no_separator :
    (error : Text)
    → Avoids b' ' error
    → Avoids b':' error
    → length error < npos
    → parse_host_port error ≡ ok (error, error)
unfolding size_add size_sub
parse_host_port_no_separator error sp co h =
    let no_space : size_add (find_char error b' ' 0) 1 ≡ 0 =
      ap (λ n. size_add n 1) (find_char-miss error b' ' sp) in
    let no_colon : size_add (find_char error b':' 0) 1 ≡ 0 =
      ap (λ n. size_add n 1) (find_char-miss error b':' co) in
    parse_at error 0 0 h (ap (λ n. size_add (find_char error b' ' n) 1) no_space ∙ no_space)
      no_colon
    ∙ ap (λ t. ok (t, error)) (take-all npos error (omega arith))

-- A reply's text is shorter than the largest `size_t`.
abbrev pub FitsSize : Reply → Type 0
FitsSize (Reply.error text) = length text < npos
FitsSize _ = Unit {0}

redirected-total :
    (state : ProcessState) (text : Text)
    → length text < npos
    → (p : Processed) × (redirected state (parse_host_port text) ≡ ok p)
unfolding redirected
redirected-total state text h =
    let (host, port, e) = parse_host_port-total text h in
    (record { state = state; host = host; port = port }, rw e)

process_error-total :
    (text : Text) → length text < npos → (p : Processed) × (process_error text ≡ ok p)
unfolding process_error
process_error-total text h = elim (Bool-cases (find (codes "ASK") text 0 == 0)) [
  | inl is_ask ↦ rw is_ask (redirected-total ask text h)
  | inr no_ask ↦ elim (Bool-cases (find (codes "MOVED") text 0 == 0)) [
    | inl is_moved ↦ rw (no_ask, is_moved) (redirected-total moved text h)
    | inr no_moved ↦ elim (Bool-cases (find (codes "CLUSTERDOWN") text 0 == 0)) [
      | inl is_down ↦ rw (no_ask, no_moved, is_down) (not_redirected clusterdown, refl)
      | inr no_down ↦ rw (no_ask, no_moved, no_down) (not_redirected ready, refl)
    ]
  ]
]

-- Every reply gets a state: no error text, however malformed, makes `processResult` throw.
pub process_result-total : (v : Reply) → FitsSize v → (p : Processed) × (process_result v ≡ ok p)
unfolding process_result
process_result-total (Reply.error text) h = process_error-total text h
process_result-total (Reply.string t) h = (_, refl)
process_result-total (Reply.array t) h = (_, refl)
process_result-total (Reply.integer t) h = (_, refl)
process_result-total Reply.nil h = (_, refl)
process_result-total (Reply.status t) h = (_, refl)
