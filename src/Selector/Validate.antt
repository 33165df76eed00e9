-- ===== src/Selector/Validate.antt =====
-- The checks of selector values (internal/selector/selector.go). A check is true where the source
-- returns no error; the texts of the errors are not modelled.
use hypergate_engine.Prelude.{
  ℕ, Bool, false, ◌&&◌, ◌||◌, not, List, [], ◌∷◌, ◌++◌, Option, none, some, if◌then◌else◌, ◌==◌,
  nat_eq, list_eq, length, ltb, leb, all,
}
use hypergate_engine.Prelude.Text.{Str, lit, cut, split, cut_prefix, contains_byte, contains_any}
use hypergate_engine.Prelude.Maps.{Map, insert}

unfoldable pub is_lower_alnum : ℕ → Bool
is_lower_alnum c = leb b'a' c && leb c b'z' || leb b'0' c && leb c b'9'

unfoldable pub validate_host_label : Str → Bool
unfolding is_lower_alnum
validate_host_label l =
    not (l == [] || ltb 63 (length l)) && all (λ c. is_lower_alnum c || c == b'-' || c == b'_') l

-- `v[0]` and `v[len(v)-1]` of a text that is not empty.
abbrev pub first_byte : Str → ℕ
first_byte [] = 0
first_byte (c ∷ s) = c

abbrev pub last_byte : Str → ℕ
last_byte [] = 0
last_byte (c ∷ []) = c
last_byte (c ∷ d ∷ s) = last_byte (d ∷ s)

-- An RFC 1123 label.
unfoldable pub validate_dns_label : Str → Bool
unfolding is_lower_alnum
validate_dns_label v =
    not (length v == 0 || ltb 63 (length v))
    && all (λ c. is_lower_alnum c || c == b'-') v
    && not (first_byte v == b'-' || last_byte v == b'-')

-- An RFC 1123 subdomain.
unfoldable pub validate_dns_subdomain : Str → Bool
unfolding validate_dns_label
validate_dns_subdomain v =
    not (length v == 0 || ltb 253 (length v)) && all validate_dns_label (split b'.' v)

unfoldable pub validate_namespaced_name : Str → (Str → Bool) → Bool
unfolding validate_dns_label
validate_namespaced_name v validate_name =
    let (ns, name, found) = cut b'/' v in found && validate_dns_label ns && validate_name name

abbrev spiffe_parts : List Str → Bool
spiffe_parts (domain ∷ ns_word ∷ ns ∷ sa_word ∷ name ∷ []) =
    not (domain == [] || not (ns_word == lit "ns") || not (sa_word == lit "sa"))
    && validate_dns_label ns
    && validate_dns_subdomain name
spiffe_parts _ = false

unfoldable pub validate_spiffe : Str → Bool
unfolding validate_dns_label validate_dns_subdomain
validate_spiffe v = elim (cut_prefix (lit "//") v) [
  | none ↦ false
  | some rest ↦ spiffe_parts (split b'/' rest)
]

-- The pairs of a label list, into the map built so far.
unfoldable pub label_pairs : List Str → Map Str Str → Option (Map Str Str)
label_pairs [] kv = some kv
label_pairs (pair ∷ rest) kv =
    let (k, value, found) = cut b'=' pair in
    let next = label_pairs rest (insert k value kv) in
    if not found || k == []
    then none
    else if contains_any (k ++ value) (32 ∷ 9 ∷ [])
    then none
    else next

-- The namespace before a first `/`, where no `=` stands before that, and the pairs after it.
unfoldable pub parse_labels : Str → Option (Str × Map Str Str)
unfolding validate_dns_label label_pairs
parse_labels v =
    let (before, rest, found) = cut b'/' v in
    let with_ns : Option (Str × Map Str Str) = elim (label_pairs (split b',' rest) []) [
      | none ↦ none
      | some kv ↦ some (before, kv)
    ] in
    let without_ns : Option (Str × Map Str Str) = elim (label_pairs (split b',' v) []) [
      | none ↦ none
      | some kv ↦ some ([], kv)
    ] in
    if found && not (contains_byte b'=' before)
    then if validate_dns_label before then with_ns else none
    else without_ns
