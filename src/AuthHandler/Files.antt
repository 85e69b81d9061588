-- ===== src/AuthHandler/Files.antt =====
-- The gated files: which requests get one, and which files can be read.
use nginx_front_back_end_dem.Prelude.{
  ◌≡◌, ◌≢◌, ◌⊎◌, refl, true, false, none, some, [], ◌∷◌, ◌++◌, Text, codes, arith, find,
  starts_with, trim_front, is_some, Bool-cases, Option-cases, inl, inr, nat_beq,
}
use nginx_front_back_end_dem.World.{World}
use nginx_front_back_end_dem.Http.{Status, Request, Response, text, status_response, make_response}
use nginx_front_back_end_dem.Tokens.{TokenStore, validate}
use nginx_front_back_end_dem.Acl.{Acl}
use nginx_front_back_end_dem.Cookies.{extract_token, validated_token}
use nginx_front_back_end_dem.Router.{path_of}
use nginx_front_back_end_dem.AuthHandler.{
  handle_check, content_type_for, relative, pop_slash, read_static, serve_file, redirect_to_login,
  handle_protected_file,
}

-- No two dots stand side by side, so no part of the path is "..".
abbrev pub NoDoubleDot : Text → Type 0
NoDoubleDot [] = Unit
NoDoubleDot (a ∷ []) = Unit
NoDoubleDot (a ∷ b ∷ s) = ((a ≡ b'.') → b ≢ b'.') × NoDoubleDot (b ∷ s)

find-NoDoubleDot : (s : Text) → is_some (find s (codes "..")) ≡ false → NoDoubleDot s
unfolding find starts_with
find-NoDoubleDot [] h = tt
find-NoDoubleDot (a ∷ []) h = tt
find-NoDoubleDot (a ∷ b ∷ s) h = (ground arith, find-NoDoubleDot (b ∷ s) (ground arith))

NoDoubleDot-trim_front : (s : Text) → NoDoubleDot s → NoDoubleDot (trim_front b'/' s)
unfolding trim_front
NoDoubleDot-trim_front [] h = tt
NoDoubleDot-trim_front (a ∷ []) h = elim (Bool-cases (nat_beq a b'/')) [
  | inl slash ↦ rw slash tt
  | inr other ↦ rw other tt
]
NoDoubleDot-trim_front (a ∷ b ∷ s) (p, h) = elim (Bool-cases (nat_beq a b'/')) [
  | inl slash ↦ rw slash (NoDoubleDot-trim_front (b ∷ s) h)
  | inr other ↦ rw other (p, h)
]

-- A path that stays below the directory that it is joined to.
abbrev pub IsBelow : Text → Type 0
IsBelow rel = NoDoubleDot rel × ((s : Text) → rel ≢ b'/' ∷ s)

trim_front-no_slash : (s t : Text) → trim_front b'/' s ≢ b'/' ∷ t
unfolding trim_front
trim_front-no_slash [] t e = cc
trim_front-no_slash (a ∷ s) t e = elim (Bool-cases (nat_beq a b'/')) [
  | inl slash ↦ trim_front-no_slash s t (rw slash at e)
  | inr other ↦ ground arith
]

-- Two worlds that hold the same files below the root.
abbrev pub SameBelow : Text → World → World → Type 0
SameBelow fs_root w w' =
    (rel : Text)
    → IsBelow rel
    → w.read_file (pop_slash fs_root ++ (b'/' ∷ rel))
      ≡ w'.read_file (pop_slash fs_root ++ (b'/' ∷ rel))

serve_file-SameBelow :
    (w w' : World) (fs_root rel : Text)
    → SameBelow fs_root w w'
    → serve_file w fs_root rel ≡ serve_file w' fs_root rel
unfolding serve_file
serve_file-SameBelow w w' fs_root rel same = elim (Bool-cases (is_some (find rel (codes "..")))) [
  | inl dots ↦ ground arith
  | inr none_found ↦
      let trimmed = trim_front b'/' rel in
      let below : IsBelow trimmed =
        (NoDoubleDot-trim_front rel (find-NoDoubleDot rel none_found), trim_front-no_slash rel) in
      ground (arith, same trimmed below)
]

-- Take two worlds at the same time that hold the same files below the root, where a path below the
-- root is one without two dots side by side. Whatever the request, the sessions, the access list,
-- the root and the prefix, the gated files get the same response in both: no other file shows,
-- neither by its presence nor by its content.
pub handle_protected_file-SameBelow :
    (w w' : World) (req : Request) (tokens : TokenStore) (acl : Acl) (fs_root url_prefix : Text)
    → w.now ≡ w'.now
    → SameBelow fs_root w w'
    → handle_protected_file w req tokens acl fs_root url_prefix
      ≡ handle_protected_file w' req tokens acl fs_root url_prefix
unfolding handle_protected_file validated_token validate
handle_protected_file-SameBelow w w' req tokens acl fs_root url_prefix now same =
    ground
      (arith, serve_file-SameBelow w w' fs_root (relative (path_of req.target) url_prefix) same)

-- What a request for the file at `rel` below the root gets: 403 where two dots stand in the path, 404
-- where no file can be read there, and the file otherwise.
abbrev pub Fetched : World → Text → Text → Response → Type 0
Fetched w fs_root rel file =
    let path = pop_slash fs_root ++ (b'/' ∷ trim_front b'/' rel) in
    ((is_some (find rel (codes "..")) ≡ true)
      × (file ≡ text Status.forbidden (codes "Access denied")))
    ⊎ ((is_some (find rel (codes "..")) ≡ false)
        × (w.read_file path ≡ none)
        × (file ≡ text Status.not_found (codes "Not Found")))
    ⊎ ((is_some (find rel (codes "..")) ≡ false)
        × ((content : Text) × (w.read_file path ≡ some content)
            × (file ≡ make_response Status.ok content (content_type_for (trim_front b'/' rel)))))

serve_file-Fetched :
    (w : World) (fs_root rel : Text) → Fetched w fs_root rel (serve_file w fs_root rel)
unfolding serve_file read_static
serve_file-Fetched w fs_root rel = elim (Bool-cases (is_some (find rel (codes "..")))) [
  | inl dots ↦ inl (dots, ground arith)
  | inr clean ↦
      elim (Option-cases (w.read_file (pop_slash fs_root ++ (b'/' ∷ trim_front b'/' rel)))) [
        | inl missing ↦ inr (inl (clean, missing, ground arith))
        | inr (content, found) ↦ inr (inr (clean, (content, found, ground arith)))
      ]
]

redirect_to_login_lem :
    (req : Request)
    → ((redirect_to_login req).status ≡ Status.found)
      × ((redirect_to_login req).location ≡ some (codes "/?reason=unauthenticated"))
unfolding redirect_to_login
redirect_to_login_lem req = (refl, refl)

-- The two ways to guard a file agree. Let the proxy's sub-request carry the same token as the
-- request for the file and name that request's path, without a query and not empty, as the original
-- URI. The sub-request is answered 401, 403 or 200. If 401, the request for the file is redirected by
-- 302 to the login page; if 403, it is refused with 403 as well; and if 200, it passes the access
-- list: it is answered with the file below the root, with 404 where there is none to read, and with
-- 403 where two dots stand in the path behind the prefix, at which the sub-request does not look.
pub handle_check-handle_protected_file :
    (w : World) (check req : Request) (tokens : TokenStore) (acl : Acl) (fs_root url_prefix : Text)
    → extract_token check ≡ extract_token req
    → check.x_original_uri ≡ some (path_of req.target)
    → path_of req.target ≢ []
    → let answer = handle_check w check tokens acl in
      let file = handle_protected_file w req tokens acl fs_root url_prefix in
      ((answer.status ≡ Status.unauthorized)
        × (file.status ≡ Status.found)
        × (file.location ≡ some (codes "/?reason=unauthenticated")))
      ⊎ ((answer.status ≡ Status.forbidden)
          × (file ≡ text Status.forbidden (codes "Access denied")))
      ⊎ ((answer.status ≡ Status.ok)
          × Fetched w fs_root (relative (path_of req.target) url_prefix) file)
unfolding handle_check handle_protected_file validated_token status_response
handle_check-handle_protected_file w check req tokens acl fs_root url_prefix same uri nonempty =
    ground (
      arith,
      redirect_to_login_lem req,
      serve_file-Fetched w fs_root (relative (path_of req.target) url_prefix),
    )
