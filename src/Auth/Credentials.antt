-- ===== src/Auth/Credentials.antt =====
-- What `credentialFromJSON` of basispoints/auth.go returns, and from where in the file.
use cliproxyapi_plugin_basis.Common.{
  ◌≡◌, refl, false, Option, none, some, List, [], ◌∷◌, ◌++◌, is_nil, ◌||◌, if◌then◌else◌, All, ◌⊎◌,
  inl, inr, ap,
}
use cliproxyapi_plugin_basis.Common.Text.{Text, lit, trim_space}
use cliproxyapi_plugin_basis.Auth.{
  Codec, token_paths, account_paths, id_token_paths, fill, first_json_string, account_id_from_jwt,
  credential_from_json,
}

-- Where the file may hold its token, its account and its identity, in the order of preference.
abbrev pub token_places : List Text
token_places = lit "access_token" ∷ lit "metadata.access_token" ∷ []

abbrev pub account_places : List Text
account_places = lit "account_id" ∷ lit "metadata.account_id" ∷ lit "chatgpt_account_id" ∷ []

abbrev pub identity_places : List Text
identity_places = lit "id_token" ∷ lit "metadata.id_token" ∷ []

module _ (codec : Codec) where
  -- All of the paths hold blank text.
  abbrev pub IsBlank : Text → List Text → Type 0
  IsBlank raw paths = All (λ path. trim_space (codec.string_at raw path) ≡ []) paths

  -- `v` is the trimmed text at one of the paths, and those before it hold blank text.
  abbrev pub IsFirst : Text → List Text → Text → Type 0
  IsFirst raw paths v =
      (before after : List Text) × (path : Text) × (paths ≡ before ++ path ∷ after)
      × IsBlank raw before
      × (v ≡ trim_space (codec.string_at raw path))
      × (is_nil v ≡ false)

  abbrev pub Reads : Text → List Text → Text → Type 0
  Reads raw paths v = IsFirst raw paths v ⊎ ((v ≡ []) × IsBlank raw paths)

  -- The account: the file's own; or where it has none, the one that its token names, and where that
  -- names none the one that its identity names.
  abbrev pub IsAccount : Text → Text → Text → Type 0
  IsAccount raw token account =
      IsFirst raw account_places account
      ⊎ (IsBlank raw account_places
          × ((identity : Text) × Reads raw identity_places identity
              × (is_nil account ≡ false)
              × ((account ≡ account_id_from_jwt codec token)
                  ⊎ ((account_id_from_jwt codec token ≡ [])
                      × (account ≡ account_id_from_jwt codec identity)))))

  -- A credential, and none: there is no token, or no account anywhere.
  abbrev pub CredentialOf : Text → Option (Text × Text) → Type 0
  CredentialOf raw (some (token, account)) =
      IsFirst raw token_places token × IsAccount raw token account
  CredentialOf raw none =
      IsBlank raw token_places
      ⊎ (IsBlank raw account_places
          × ((token identity : Text) × IsFirst raw token_places token
              × Reads raw identity_places identity
              × (account_id_from_jwt codec token ≡ [])
              × (account_id_from_jwt codec identity ≡ [])))

  first_json_string-Reads :
      (raw : Text) (paths : List Text) → Reads raw paths (first_json_string codec raw paths)
  unfolding first_json_string
  first_json_string-Reads raw [] = inr (refl, tt)
  first_json_string-Reads raw (path ∷ paths) =
      by_value (trim_space (codec.string_at raw path)) refl (first_json_string-Reads raw paths)
    where
      by_value :
          (value : Text) {rest : Text}
          → trim_space (codec.string_at raw path) ≡ value
          → Reads raw paths rest
          → Reads raw (path ∷ paths) (if is_nil value then rest else value)
      by_value [] p (inl (before, after, found, q, blank, v, n)) =
          inl (path ∷ before, after, found, ap (λ ps. path ∷ ps) q, (p, blank), v, n)
      by_value [] p (inr (e, blank)) = inr (e, (p, blank))
      by_value (c ∷ value) p r = inl ([], paths, path, refl, tt, cc, refl)

  chosen :
      (raw token own identity : Text)
      → Reads raw token_places token
      → Reads raw account_places own
      → Reads raw identity_places identity
      → CredentialOf raw (
          let account =
            fill
              (fill own (account_id_from_jwt codec token))
              (account_id_from_jwt codec identity) in
          if is_nil token || is_nil account then none else some (token, account))
  chosen raw token own identity (inr (e, blank)) o i = rw e (inl blank)
  chosen raw [] own identity (inl (before, after, path, p, blank, v, n)) o i = absurd (cc)
  chosen raw (c ∷ token) [] identity (inl first) (inl (before, after, path, p, blank, v, n)) i =
      absurd (cc)
  chosen raw (c ∷ token) (a ∷ own) identity (inl first) (inl named) i = (first, inl named)
  chosen raw (c ∷ token) own identity (inl first) (inr (e, blank)) i =
      rw e (claimed (account_id_from_jwt codec (c ∷ token)) refl)
    where
      claimed :
          (j : Text)
          → account_id_from_jwt codec (c ∷ token) ≡ j
          → CredentialOf raw (
              let account = fill j (account_id_from_jwt codec identity) in
              if is_nil account then none else some (c ∷ token, account))
      claimed (a ∷ j) p = (first, inr (blank, (identity, i, refl, inl (cc))))
      claimed [] p = identified (account_id_from_jwt codec identity) refl
        where
          identified :
              (j : Text)
              → account_id_from_jwt codec identity ≡ j
              → CredentialOf raw (if is_nil j then none else some (c ∷ token, j))
          identified [] q = inr (blank, (c ∷ token, identity, first, i, p, q))
          identified (a ∷ j) q = (first, inr (blank, (identity, i, refl, inr (p, cc))))

  -- The token of a credential is the first text of the file that is not blank under access_token and
  -- metadata.access_token. Its account is the first such text under account_id, metadata.account_id
  -- and chatgpt_account_id; where there is none, the account in the claims of the token; and where
  -- they name none, that in the claims of the identity under id_token and metadata.id_token. A file
  -- gives no credential only where it has no such token, or none of these places names an account.
  pub credential_from_json-CredentialOf :
      (raw : Text) → CredentialOf raw (credential_from_json codec raw)
  unfolding credential_from_json
  credential_from_json-CredentialOf raw =
      chosen raw (first_json_string codec raw token_paths)
        (first_json_string codec raw account_paths) (first_json_string codec raw id_token_paths)
        (first_json_string-Reads raw token_paths) (first_json_string-Reads raw account_paths)
        (first_json_string-Reads raw id_token_paths)
