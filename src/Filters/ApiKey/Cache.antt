-- ===== src/Filters/ApiKey/Cache.antt =====
-- The entries of the local cache (internal/filters/api_key/api_key.go): a zero byte and the reason of
-- a denial, or a line for each header that is set.
use hypergate_engine.Prelude.{
  ℕ, Bool, true, false, List, [], ◌∷◌, ◌++◌, Option, none, some, if◌then◌else◌, ◌==◌, nat_eq,
  list_eq, ◌≡◌, refl, ap, sym, ◌∙◌, All,
}
use mathlib.Core.List.{append_assoc}
use hypergate_engine.Prelude.Text.{Str, cut, split, split-append}
use hypergate_engine.Prelude.Text.Pieces.{Lacks, split-Lacks, Lacks-append}
use hypergate_engine.Prelude.Text.Cuts.{cut-append}

abbrev pub newline : ℕ
newline = b'\n'

-- The strings.Builder loop over the header values.
unfoldable pub encode_headers : List (Str × Str) → Str
encode_headers [] = []
encode_headers ((k, v) ∷ hs) = k ++ b'=' ∷ (v ++ newline ∷ encode_headers hs)

-- `parts := strings.SplitN(line, "=", 2)`, where both parts are there.
abbrev add_line : Str × Str × Bool → List (Str × Str) → List (Str × Str)
add_line (k, v, true) hs = (k, v) ∷ hs
add_line (k, v, false) hs = hs

abbrev is_empty : Str → Bool
is_empty [] = true
is_empty (c ∷ s) = false

headers_of_lines : List Str → List (Str × Str)
unfolding cut
headers_of_lines [] = []
headers_of_lines (line ∷ lines) =
    let rest = headers_of_lines lines in
    if is_empty line then rest else add_line (cut b'=' line) rest

-- The headers that a cached entry sets, in order.
unfoldable pub decode_headers : Str → List (Str × Str)
unfolding headers_of_lines
decode_headers s = headers_of_lines (split newline s)

unfoldable pub encode_denial : Str → Str
encode_denial reason = 0 ∷ reason

-- The test for a block marker, and the reason behind it.
unfoldable pub denial_of : Str → Option Str
denial_of [] = none
denial_of (b ∷ s) = if b == 0 then some s else none

-- A header that a line can hold.
abbrev pub IsLine : Str × Str → Type 0
IsLine (k, v) = Lacks b'=' k × Lacks newline k × Lacks newline v

is_empty-append : (k s : Str) (c : ℕ) → is_empty (k ++ c ∷ s) ≡ false
is_empty-append [] s c = refl
is_empty-append (b ∷ k) s c = refl

headers_of_lines-line :
    (k v : Str) (lines : List Str)
    → Lacks b'=' k
    → headers_of_lines ((k ++ b'=' ∷ v) ∷ lines) ≡ (k, v) ∷ headers_of_lines lines
unfolding headers_of_lines
headers_of_lines-line k v lines h = rw (is_empty-append k v b'=', cut-append b'=' k v h) refl

split-line :
    (k v rest : Str)
    → IsLine (k, v)
    → split newline (k ++ b'=' ∷ (v ++ newline ∷ rest)) ≡ (k ++ b'=' ∷ v) ∷ split newline rest
split-line k v rest (hk, nk, nv) =
    let line = k ++ b'=' ∷ v in
    ap (split newline) (sym (append_assoc k (b'=' ∷ v) (newline ∷ rest)))
    ∙ split-append newline line rest
    ∙ ap (λ ws. ws ++ split newline rest)
        (split-Lacks newline line (Lacks-append newline k (b'=' ∷ v) nk (λ e. cc (e), nv)))

decode-line :
    (k v rest : Str)
    → IsLine (k, v)
    → decode_headers (k ++ b'=' ∷ (v ++ newline ∷ rest)) ≡ (k, v) ∷ decode_headers rest
unfolding decode_headers
decode-line k v rest l =
    ap headers_of_lines (split-line k v rest l) ∙ headers_of_lines-line k v (split newline rest) l.0

-- The headers of a cached grant are read back in order, if no name holds an equals sign or a newline
-- and no value holds a newline.
pub decode_headers-encode :
    (hs : List (Str × Str)) → All IsLine hs → decode_headers (encode_headers hs) ≡ hs
unfolding encode_headers
decode_headers-encode [] h = unfold decode_headers headers_of_lines split in refl
decode_headers-encode ((k, v) ∷ hs) (l, h) =
    decode-line k v (encode_headers hs) l ∙ ap (λ r. (k, v) ∷ r) (decode_headers-encode hs h)

-- A header value that holds a newline and the text of another header sets that header too, when the
-- grant is read back from the cache.
pub decode_headers-smuggled :
    (k v j u : Str) (hs : List (Str × Str))
    → IsLine (k, v)
    → IsLine (j, u)
    → decode_headers (encode_headers ((k, v ++ newline ∷ (j ++ b'=' ∷ u)) ∷ hs))
      ≡ (k, v) ∷ (j, u) ∷ decode_headers (encode_headers hs)
unfolding encode_headers
decode_headers-smuggled k v j u hs l m =
    let rest = encode_headers hs in
    ap (λ s. decode_headers (k ++ b'=' ∷ s))
      (append_assoc v (newline ∷ (j ++ b'=' ∷ u)) (newline ∷ rest)
        ∙ ap (λ s. v ++ newline ∷ s) (append_assoc j (b'=' ∷ u) (newline ∷ rest)))
    ∙ decode-line k v (j ++ b'=' ∷ (u ++ newline ∷ rest)) l
    ∙ ap (λ hs. (k, v) ∷ hs) (decode-line j u rest m)
