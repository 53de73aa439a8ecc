-- ===== src/Proxy/Headers.antt =====
-- The type `http.Header` with the methods that the program calls. Keys are put into the canonical
-- form of `textproto.CanonicalMIMEHeaderKey`.
use s_ingress.Common.Texts.{Text, codes, text_eq, text_eq_iff, text_keys}
use s_ingress.Common.{
  Bool, List, Map, [], any, arith, delete, if◌then◌else◌, insert, leb, lookup, lookup-delete,
  lookup-insert, nat_eq, none, not, some, true, ℕ, ◌&&◌, ◌++◌, ◌+◌, ◌-◌, ◌||◌, ◌∷◌, ◌≡◌,
}

abbrev pub Header : Type 0
Header = Map Text (List Text)

is_upper : ℕ → Bool
is_upper c = leb b'A' c && leb c b'Z'

is_lower : ℕ → Bool
is_lower c = leb b'a' c && leb c b'z'

-- The bytes of a token, as RFC 7230 has them.
is_token_byte : ℕ → Bool
unfolding is_upper is_lower
is_token_byte c =
    is_upper c
    || is_lower c
    || (leb b'0' c && leb c b'9')
    || any (nat_eq c) (codes "!#$%&'*+-.^_`|~")

all_token_bytes : Text → Bool
unfolding is_token_byte
all_token_bytes [] = true
all_token_bytes (c ∷ t) = is_token_byte c && all_token_bytes t

-- Letters are raised at the start and behind a hyphen, and lowered elsewhere.
canonical_from : Bool → Text → Text
unfolding is_upper is_lower
canonical_from upper [] = []
canonical_from upper (c ∷ t) =
    (if upper && is_lower c then c - 32 else if not upper && is_upper c then c + 32 else c)
    ∷ canonical_from (nat_eq c b'-') t

unfoldable pub canonical_key : Text → Text
unfolding all_token_bytes canonical_from
canonical_key k = if all_token_bytes k then canonical_from true k else k

-- `h.Values(k)`
unfoldable pub header_values : Header → Text → List Text
header_values h k = elim (lookup (canonical_key k) h) [ none ↦ [] | some vs ↦ vs ]

abbrev pub first_value : List Text → Text
first_value [] = []
first_value (v ∷ vs) = v

-- `h.Get(k)`
unfoldable pub header_get : Header → Text → Text
unfolding header_values
header_get h k = first_value (header_values h k)

-- `h.Set(k, v)`
unfoldable pub header_set : Header → Text → Text → Header
header_set h k v = insert (canonical_key k) (v ∷ []) h

-- `h.Add(k, v)`
unfoldable pub header_add : Header → Text → Text → Header
unfolding header_values
header_add h k v = insert (canonical_key k) (header_values h k ++ v ∷ []) h

-- `h.Del(k)`
unfoldable pub header_del : Header → Text → Header
header_del h k = delete (canonical_key k) h

pub header_values-set :
    (h : Header) (k j v : Text)
    → header_values (header_set h k v) j
      ≡ (if text_eq (canonical_key k) (canonical_key j) then v ∷ [] else header_values h j)
unfolding header_values header_set
header_values-set h k j v =
    ground (arith, lookup-insert (canonical_key k) (canonical_key j) (v ∷ []) h)

pub header_values-add :
    (h : Header) (k j v : Text)
    → header_values (header_add h k v) j ≡ (
        if text_eq (canonical_key k) (canonical_key j)
        then header_values h j ++ v ∷ []
        else header_values h j)
unfolding header_values header_add
header_values-add h k j v = ground (
  arith,
  text_eq_iff (canonical_key k) (canonical_key j),
  lookup-insert (canonical_key k) (canonical_key j) (header_values h k ++ v ∷ []) h,
)

pub header_values-del :
    (h : Header) (k j : Text)
    → header_values (header_del h k) j
      ≡ (if text_eq (canonical_key k) (canonical_key j) then [] else header_values h j)
unfolding header_values header_del
header_values-del h k j = ground (arith, lookup-delete (canonical_key k) (canonical_key j) h)
