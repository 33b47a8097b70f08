-- ===== src/Controllers/FileServer.antt =====
-- src/operator/controllers/program.rs, `ProgramFileServer`: the artifacts that are served to the
-- init containers of workspaces. The mutex makes each function atomic.
use pulumi_rs_kube_operator.Base.{
  ℕ, false, not, Option, none, some, List, [], ◌∷◌, Text, text, text_eq, text_eq→eq, text_eq_self,
  retain, ◌==◌, if◌then◌else◌, ◌≡◌, refl, Bool-cases, inl, inr,
}

abbrev pub Bytes : Type 0
Bytes = List ℕ

-- `HashMap<String, Vec<u8>>`
abbrev pub Artifacts : Type 0
Artifacts = List (Text × Bytes)

unfoldable pub get_artifact : Text → Artifacts → Option Bytes
get_artifact path [] = none
get_artifact path ((p, bytes) ∷ rest) =
    if text_eq p path then some bytes else get_artifact path rest

-- `remove(path)`
unfoldable pub remove_artifact : Text → Artifacts → Artifacts
remove_artifact path artifacts = retain (λ e. not (text_eq e.0 path)) artifacts

-- `insert(path, bytes)`: what was there is replaced.
unfoldable pub store_artifact : Text → Bytes → Artifacts → Artifacts
unfolding remove_artifact
store_artifact path bytes artifacts = (path, bytes) ∷ remove_artifact path artifacts

-- `trim_start_matches('/')`
unfoldable pub trim_slashes : Text → Text
trim_slashes [] = []
trim_slashes (c ∷ cs) = let rest = trim_slashes cs in if c == b'/' then rest else c ∷ cs

pub record HttpResponse : Type 0 where
  pub status : ℕ
  pub body : Bytes

-- The answer for what is found at the path without its slashes.
unfoldable pub respond : Option Bytes → HttpResponse
respond (some bytes) = record { status = 200; body = bytes }
respond none = record { status = 404; body = text "not found" }

-- The answer to a request for a path.
unfoldable pub serve : Artifacts → Text → HttpResponse
unfolding get_artifact trim_slashes respond
serve artifacts path = respond (get_artifact (trim_slashes path) artifacts)

pub get-store :
    (path : Text) (bytes : Bytes) (artifacts : Artifacts)
    → get_artifact path (store_artifact path bytes artifacts) ≡ some bytes
unfolding get_artifact store_artifact
get-store path bytes artifacts = rw (text_eq_self path) refl

pub get-remove_same :
    (path : Text) (artifacts : Artifacts)
    → get_artifact path (remove_artifact path artifacts) ≡ none
unfolding get_artifact remove_artifact
get-remove_same path [] = refl
get-remove_same path ((p, bytes) ∷ rest) = elim (Bool-cases (text_eq p path)) [
  | inl e ↦ rw e (get-remove_same path rest)
  | inr e ↦ rw (e, e) (get-remove_same path rest)
]

pub get-remove_other :
    (other path : Text) (artifacts : Artifacts)
    → text_eq path other ≡ false
    → get_artifact other (remove_artifact path artifacts) ≡ get_artifact other artifacts
unfolding get_artifact remove_artifact
get-remove_other other path [] n = refl
get-remove_other other path ((p, bytes) ∷ rest) n = elim (Bool-cases (text_eq p path)) [
  | inl e ↦ let same = text_eq→eq p path e in rw (e, same, n) (get-remove_other other path rest n)
  | inr e ↦ rw (e, get-remove_other other path rest n) refl
]
