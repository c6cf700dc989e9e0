-- ===== src/Tokens/Calls.antt =====
-- Every operation of server/token-store.mjs that changes the token file, each with the calls of the
-- file system that fail in it, and the machines that a sequence of them reaches.
use collaborative_ai_whitebo.Prelude.{
  String, ◌≡◌, refl, ◌∙◌, ap, Bool, true, false, ◌&&◌, Option, none, some, List, [], ◌∷◌,
  if◌then◌else◌, all, length, leb, arith,
}
use mathlib.Core.Path.{subst}
use collaborative_ai_whitebo.Exec.{ok, err}
use collaborative_ai_whitebo.Exec.Keeps.{
  Keeps, Keeps-bind, Keeps-pure, Keeps-ensure, Keeps-lift, Keeps-lift-bind, Keeps-or_throw-bind,
  Keeps-ensure-bind,
}
use collaborative_ai_whitebo.Tokens.Types.{
  TokenFailure, Value, text, texts, other, Client, Access, access_read, access_write, read_write,
  read_history, read_write_history, full, access_modes,
}
use collaborative_ai_whitebo.Tokens.Platform.{
  TokenPlatform, Checked, normalise_creator, creator_id, is_valid_client_name, is_valid_room_id,
}
use collaborative_ai_whitebo.Tokens.Files.{Disk, Faults, Machine, FileAction}
use collaborative_ai_whitebo.Tokens.Records.{LocateOptions}
use collaborative_ai_whitebo.Tokens.Clients.{
  CreateRequest, CreatedClient, CreateAccountRequest, CreatedAccountClient, RotateRequest,
  RotatedClient, create_client, create_account_client, revoke_client, rotate_client,
}
use collaborative_ai_whitebo.Tokens.Grant.{GrantRequest, Granted, grant_new_board}
use collaborative_ai_whitebo.Tokens.Reader.{
  hash_text, permission, texts_of, creator_field, client_schema, account_client_schema,
}
use collaborative_ai_whitebo.Tokens.Moves.{OnDisk, IsPolicy, mutate_store-Keeps}
use collaborative_ai_whitebo.Tokens.Moves.Grants.{grant_new_board-Keeps}
use collaborative_ai_whitebo.Tokens.WellFormed.Mutators.{
  Sound, add_client-Sound, add_account_client-Sound, remove_clients-Sound, replace_token-Sound,
}
use collaborative_ai_whitebo.Tokens.WellFormed.Grants.{pinned_client-Pinned, granted_store-Sound}

-- What Node.js documents of a hex digest of SHA-256.
pub record IsDocumented (p : TokenPlatform) : Type 0 where
  pub digests : (s : String) → hash_text (p.sha256 s) ≡ true

module _ (p : TokenPlatform) where
  pub data Call : (A : Type 0) → FileAction A → Type 1 where
    create :
        (faults : Faults) (pid token : String) (request : CreateRequest)
        → Call CreatedClient (create_client p faults pid token request)
    create_account :
        (faults : Faults) (pid token : String) (request : CreateAccountRequest)
        → Call CreatedAccountClient (create_account_client p faults pid token request)
    revoke :
        (faults : Faults) (pid name : String) (options : LocateOptions)
        → Call Unit (revoke_client p faults pid name options)
    rotate :
        (faults : Faults) (pid token : String) (request : RotateRequest)
        → Call RotatedClient (rotate_client p faults pid token request)
    grant :
        (faults : Faults) (pid : String) (request : GrantRequest)
        → Call Granted (grant_new_board p faults pid request)

  pub data Reach (s : Machine) : Machine → Type 1 where
    here : Reach s s
    next : {t : Machine} {A : Type 0} {m : FileAction A} → Reach s t → Call A m → Reach s (m t).1

access_modes-permission : (a : Access) → texts_of permission 1 4 (texts (access_modes a)) ≡ true
unfolding access_modes
access_modes-permission access_read = refl
access_modes-permission access_write = refl
access_modes-permission read_write = refl
access_modes-permission read_history = refl
access_modes-permission read_write_history = refl
access_modes-permission full = refl

kept_text :
    (b : Bool) (s : String) (v : Value) (e : TokenFailure)
    → ◌≡◌ {A = Checked (Option Value)} (if b then ok (some (text s)) else err e) (ok (some v))
    → (b ≡ true) × (text s ≡ v)
kept_text true s v e h = (refl, cc h)
kept_text false s v e h = cc

normalise_creator-field :
    (o : Option Value) (v : Value)
    → normalise_creator o ≡ ok (some v)
    → creator_field (some v) ≡ true
unfolding normalise_creator
normalise_creator-field none v h = cc
normalise_creator-field (some (text s)) v h =
    let (valid, same) = kept_text (creator_id s) s v _ h in
    subst (λ w. creator_field (some w) ≡ true) same valid
normalise_creator-field (some (texts items)) v h = cc
normalise_creator-field (some other) v h = cc

module _ {p : TokenPlatform} (doc : IsDocumented p) where
  created-schema :
      (c : Client) (token : String) (rooms : List String) (access : Access)
      → is_valid_client_name c.name ≡ true
      → (leb 1 (length rooms) && leb (length rooms) 50 && all is_valid_room_id rooms) ≡ true
      → c.token_hash ≡ p.sha256 token
      → c.rooms ≡ texts rooms
      → c.permissions ≡ texts (access_modes access)
      → client_schema c ≡ true
  unfolding client_schema
  created-schema c token rooms access name ok_rooms hash same_rooms same_modes =
      rw (hash, same_rooms, same_modes)
        (ground (arith, name, ok_rooms, doc.digests token, access_modes-permission access))

  account-schema :
      (c : Client) (token : String) (owner : Option Value) (v : Value) (access : Access)
      → is_valid_client_name c.name ≡ true
      → normalise_creator owner ≡ ok (some v)
      → c.token_hash ≡ p.sha256 token
      → c.owner_user_id ≡ some v
      → c.account_permissions ≡ some (texts ("board:create" ∷ []))
      → c.rooms ≡ texts []
      → c.permissions ≡ texts (access_modes access)
      → account_client_schema c ≡ true
  unfolding account_client_schema
  account-schema c token owner v access name owned hash same_owner capable no_rooms same_modes =
      rw (hash, same_owner, capable, no_rooms, same_modes)
        (ground (
          arith,
          name,
          doc.digests token,
          access_modes-permission access,
          normalise_creator-field owner v owned,
        ))

module _ {p : TokenPlatform} (doc : IsDocumented p) {R : Disk → Disk → Type 0}
    (k : IsPolicy p Sound R) where
  create_client-Keeps :
      (faults : Faults) (pid token : String) (request : CreateRequest)
      → Keeps (OnDisk R) (create_client p faults pid token request)
  unfolding create_client
  create_client-Keeps faults pid token request = Keeps-ensure-bind k.preorder _ _ _ (λ name.
      Keeps-ensure-bind k.preorder _ _ _ (λ rooms.
        Keeps-or_throw-bind k.preorder _ _ _ (λ access known.
          Keeps-bind k.preorder _ _ (Keeps-lift k.preorder _) (λ expires_at.
            Keeps-bind k.preorder _ _ (Keeps-lift k.preorder _) (λ display_name.
              Keeps-bind k.preorder _ _ (Keeps-lift k.preorder _) (λ creator.
                Keeps-bind k.preorder _ _
                  (mutate_store-Keeps k faults pid _ (λ store a h.
                    (add_client-Sound _ (
                        created-schema doc _ token request.rooms access name rooms refl refl
                          refl)).at
                      store))
                  (λ u. Keeps-pure k.preorder _)))))))

  create_account_client-Keeps :
      (faults : Faults) (pid token : String) (request : CreateAccountRequest)
      → Keeps (OnDisk R) (create_account_client p faults pid token request)
  unfolding create_account_client
  create_account_client-Keeps faults pid token request = Keeps-ensure-bind k.preorder _ _ _ (λ name.
      Keeps-or_throw-bind k.preorder _ _ _ (λ access known.
        Keeps-lift-bind k.preorder _ _ (λ normalised valid.
          Keeps-or_throw-bind k.preorder _ _ _ (λ owner given.
            Keeps-bind k.preorder _ _ (Keeps-lift k.preorder _) (λ expires_at.
              Keeps-bind k.preorder _ _ (Keeps-lift k.preorder _) (λ display_name.
                Keeps-bind k.preorder _ _ (Keeps-lift k.preorder _) (λ creator.
                  Keeps-bind k.preorder _ _
                    (mutate_store-Keeps k faults pid _ (λ store a h.
                      (add_account_client-Sound _ (
                          account-schema doc _ token request.owner_user_id owner access name
                            (valid ∙ ap (λ o. ok o) given) refl refl refl refl refl)).at
                        store))
                    (λ u. Keeps-pure k.preorder _))))))))

  revoke_client-Keeps :
      (faults : Faults) (pid name : String) (options : LocateOptions)
      → Keeps (OnDisk R) (revoke_client p faults pid name options)
  unfolding revoke_client
  revoke_client-Keeps faults pid name options =
      Keeps-bind k.preorder _ _ (Keeps-ensure k.preorder _ _) (λ u.
        mutate_store-Keeps k faults pid _
          (λ store a h. (remove_clients-Sound p name options).at store))

  rotate_client-Keeps :
      (faults : Faults) (pid token : String) (request : RotateRequest)
      → Keeps (OnDisk R) (rotate_client p faults pid token request)
  unfolding rotate_client
  rotate_client-Keeps faults pid token request =
      Keeps-bind k.preorder _ _ (Keeps-ensure k.preorder _ _) (λ u.
        Keeps-bind k.preorder _ _ (Keeps-lift k.preorder _) (λ expires_at.
          Keeps-bind k.preorder _ _
            (mutate_store-Keeps k faults pid _ (λ store a h.
              (replace_token-Sound p request.name request.options (p.sha256 token) expires_at
                  request.now (doc.digests token)).at
                store))
            (λ r. Keeps-pure k.preorder _)))

  pub Call-Keeps : {A : Type 0} {m : FileAction A} → Call p A m → Keeps (OnDisk R) m
  Call-Keeps (create faults pid token request) = create_client-Keeps faults pid token request
  Call-Keeps (create_account faults pid token request) =
      create_account_client-Keeps faults pid token request
  Call-Keeps (revoke faults pid name options) = revoke_client-Keeps faults pid name options
  Call-Keeps (rotate faults pid token request) = rotate_client-Keeps faults pid token request
  Call-Keeps (grant faults pid request) =
      grant_new_board-Keeps k faults request
        (λ store s client rooms board_id pinned valid.
          granted_store-Sound p request store client rooms board_id
            (pinned_client-Pinned p request store s client rooms pinned) valid)
        pid

  -- Any sequence of operations moves along the relation.
  pub Reach-Keeps : {s t : Machine} → Reach p s t → R s.disk t.disk
  Reach-Keeps {s = s} here = k.preorder.same s
  Reach-Keeps {s = s} (next {t = t} {m = m} r c) =
      k.preorder.trans s t (m t).1 (Reach-Keeps r) ((Call-Keeps c).at t)
