-- ===== src/MergeQueue/Urls.antt =====
-- nexus/core/merge_queue.py: `_parse_github_pr_url` and `_parse_gitlab_mr_url`, with what they use
-- of `urlparse`. A url is ASCII. Which hosts in brackets are valid addresses, which depends on Python's
-- version, is the parameter `is_address`, a test on the network location.
use nexus_arc.Base.{
  ℕ, zero, suc, ◌+◌, ◌-◌, Bool, not, ◌&&◌, ◌||◌, ◌==◌, Option, none, some, List, [], ◌∷◌, ◌++◌,
  length, leb, ltb, get_elem?, find_index, all, any, keep, if◌then◌else◌, codes, code_eq, lower,
  drop_while, strip,
}
use mathlib.Core.List.{reverse}
use nexus_arc.StatePlugin.Refs.{Text, is_blank}

-- What a parser of urls ends with: an exception (a ValueError of `urlparse`), None, or a repository and
-- a number.
pub data Parsed : Type 0 where
  raised : Parsed
  unsupported : Parsed
  parsed : (repo number : Text) → Parsed

abbrev pub is_digit : ℕ → Bool
is_digit c = leb b'0' c && leb c b'9'

-- `text.isdigit()`
unfoldable pub all_digits : Text → Bool
all_digits t = not (is_blank t) && all is_digit t

abbrev is_alpha : ℕ → Bool
is_alpha c = (leb b'a' c && leb c b'z') || (leb b'A' c && leb c b'Z')

abbrev is_scheme_char : ℕ → Bool
is_scheme_char c = is_alpha c || is_digit c || ((c == b'+') || (c == b'-') || (c == b'.'))

-- The text before the first character that passes a test, and the text from there on.
abbrev pub break : (ℕ → Bool) → Text → Text × Text
break p [] = ([], [])
break p (c ∷ cs) = let rest = break p cs in if p c then ([], c ∷ cs) else (c ∷ rest.0, rest.1)

-- `text.split(c)`
abbrev pub split_on : ℕ → Text → List Text
split_on c [] = [] ∷ []
split_on c (d ∷ ds) =
    let rest = split_on c ds in
    if d == c then [] ∷ rest else elim rest [ [] ↦ (d ∷ []) ∷ [] | p ∷ ps ↦ (d ∷ p) ∷ ps ]

abbrev scheme_before : Text → Text → Text → Text × Text
scheme_before url (a ∷ before) (colon ∷ after) =
    if is_alpha a && all is_scheme_char before then (lower (a ∷ before), after) else ([], url)
scheme_before url _ _ = ([], url)

-- The scheme of a url, lowered, and what follows its colon.
unfoldable pub split_scheme : Text → Text × Text
split_scheme url =
    let (before, after) = break (λ c. c == b':') url in scheme_before url before after

-- The network location, if a double slash leads to one, and what follows it.
unfoldable pub split_netloc : Text → Text × Text
split_netloc (a ∷ b ∷ rest) =
    if a == b'/' && b == b'/'
    then break (λ c. (c == b'/') || (c == b'?') || (c == b'#')) rest
    else ([], a ∷ b ∷ rest)
split_netloc url = ([], url)

-- The schemes whose last segment of a path may have parameters.
abbrev uses_params : List Text
uses_params =
    []
    ∷ codes "ftp"
    ∷ codes "hdl"
    ∷ codes "prospero"
    ∷ codes "http"
    ∷ codes "imap"
    ∷ codes "https"
    ∷ codes "shttp"
    ∷ codes "rtsp"
    ∷ codes "rtsps"
    ∷ codes "rtspu"
    ∷ codes "sip"
    ∷ codes "sips"
    ∷ codes "mms"
    ∷ codes "sftp"
    ∷ codes "tel"
    ∷ []

-- The path without the parameters of its last segment.
unfoldable pub drop_params : Text → Text
drop_params path =
    let (tail, init) = break (λ c. c == b'/') (reverse path) in
    reverse init ++ (break (λ c. c == b';') (reverse tail)).0

-- The network location and the path of `urlparse(url)`; none if it raises, for a host with one
-- bracket alone or with brackets around what is no address.
unfoldable pub urlparse : (Text → Bool) → Text → Option (Text × Text)
urlparse is_address url =
    let clean =
      keep (λ c. not ((c == 9) || (c == 10) || (c == 13))) (drop_while (λ c. leb c 32) url) in
    let (scheme, after) = split_scheme clean in
    let (netloc, rest) = split_netloc after in
    let path = (break (λ c. (c == b'?') || (c == b'#')) rest).0 in
    let opens = any (λ c. c == b'[') netloc in
    let closes = any (λ c. c == b']') netloc in
    if (opens && not closes)
      || (closes && not opens)
      || (opens && closes && not (is_address netloc))
    then none
    else some (netloc, if any (code_eq scheme) uses_params then drop_params path else path)

-- `[segment for segment in parsed.path.split("/") if segment]`
abbrev pub segments : Text → List Text
segments path = keep (λ t. not (is_blank t)) (split_on b'/' path)

abbrev pub segment : List Text → ℕ → Text
segment ts i = elim (get_elem? ts i) [ none ↦ [] | some t ↦ t ]

abbrev first_segments : ℕ → List Text → List Text
first_segments zero ts = []
first_segments (suc n) [] = []
first_segments (suc n) (t ∷ ts) = t ∷ first_segments n ts

-- `"/".join(parts)`
abbrev pub join_slash : List Text → Text
join_slash [] = []
join_slash (t ∷ []) = t
join_slash (t ∷ u ∷ ts) = t ++ b'/' ∷ join_slash (u ∷ ts)

unfoldable pub github_parts : Text → List Text → Parsed
github_parts netloc parts =
    let number = strip (segment parts 3) in
    if not (code_eq netloc (codes "github.com") || code_eq netloc (codes "www.github.com"))
    then unsupported
    else if ltb (length parts) 4 || not (code_eq (segment parts 2) (codes "pull"))
    then unsupported
    else if not (all_digits number)
    then unsupported
    else parsed (segment parts 0 ++ b'/' ∷ segment parts 1) number

unfoldable pub parse_github_pr_url : (Text → Bool) → Text → Parsed
parse_github_pr_url is_address pr_url = elim (urlparse is_address (strip pr_url)) [
  | none ↦ raised
  | some (netloc, path) ↦ github_parts netloc (segments path)
]

-- The last check, of the parts before the number and of the number.
abbrev merge_request : List Text → Text → Parsed
merge_request repo_parts number =
    if not (ltb 0 (length repo_parts)) || not (all_digits number)
    then unsupported
    else parsed (join_slash repo_parts) number

abbrev with_dash : List Text → Option ℕ → Parsed
with_dash parts (some i) =
    if leb (length parts) (i + 2) || not (code_eq (segment parts (i + 1)) (codes "merge_requests"))
    then unsupported
    else merge_request (first_segments i parts) (segment parts (i + 2))
with_dash parts none =
    let n = length parts in
    if not (code_eq (segment parts (n - 2)) (codes "merge_requests"))
    then unsupported
    else merge_request (first_segments (n - 2) parts) (segment parts (n - 1))

unfoldable pub gitlab_parts : Text → List Text → Parsed
gitlab_parts netloc parts =
    if is_blank netloc
    then unsupported
    else if ltb (length parts) 4
    then unsupported
    else with_dash parts (find_index (code_eq (codes "-")) parts)

unfoldable pub parse_gitlab_mr_url : (Text → Bool) → Text → Parsed
parse_gitlab_mr_url is_address pr_url = elim (urlparse is_address (strip pr_url)) [
  | none ↦ raised
  | some (netloc, path) ↦ gitlab_parts netloc (segments path)
]
