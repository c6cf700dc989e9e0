-- ===== src/Tokens/WellFormed/Grants.antt =====
-- `grantNewBoard` (server/token-store.mjs): what has been checked when the board is created, and the
-- file with the new grant.
use Prim.Native.Nat.{◌+◌}
use collaborative_ai_whitebo.Prelude.{
  String, ◌≡◌, refl, sym, ◌∙◌, ap, Bool, true, some, List, [], ◌∷◌, ◌++◌, ltb, length, filter, all,
  update_where, arith,
}
use mathlib.Core.Path.{subst}
use collaborative_ai_whitebo.Exec.{ok, pure}
use collaborative_ai_whitebo.Exec.Inversion.{Splits-bind, lift-eq-ok, or_throw-eq-ok, ensure-eq-ok}
use collaborative_ai_whitebo.Tokens.Types.{
  Client, Value, texts, text, other, StoreData, clients_of, account_clients_of, all_clients,
}
use collaborative_ai_whitebo.Tokens.Platform.{TokenPlatform, Checked, is_valid_room_id}
use collaborative_ai_whitebo.Tokens.Files.{Machine}
use collaborative_ai_whitebo.Tokens.Reader.{account_client_schema, texts_of}
use collaborative_ai_whitebo.Tokens.Records.{is_target, single}
use collaborative_ai_whitebo.Tokens.Grant.{
  GrantRequest, pinned_client, granted_store, with_room, push_room, room_list,
}
use collaborative_ai_whitebo.Tokens.WellFormed.Changes.{
  all-filter, names-update, length-update, all-update-one,
}
use collaborative_ai_whitebo.Tokens.WellFormed.Mutators.{
  Sound, edit_accounts-clients, Unique-renamed,
}

single-eq-ok : (cs : List Client) {c : Client} → single cs ≡ ok c → cs ≡ c ∷ []
single-eq-ok [] h = cc
single-eq-ok (c ∷ []) h = cc
single-eq-ok (c ∷ d ∷ cs) h = cc

room_list-eq-some : (v : Value) {rooms : List String} → room_list v ≡ some rooms → v ≡ texts rooms
room_list-eq-some (texts items) h = cc
room_list-eq-some (text s) h = cc
room_list-eq-some other h = cc

module _ (p : TokenPlatform) (request : GrantRequest) where
  abbrev pub is_pinned : Client → Bool
  is_pinned = is_target p request.name (some request.fingerprint)

  -- The one record that the request pins, and its rooms.
  pub record Pinned (store : StoreData) (client : Client) (rooms : List String) : Type 0 where
    pub only : filter is_pinned (account_clients_of store) ≡ client ∷ []
    pub held : client.rooms ≡ texts rooms
    pub below : ltb (length rooms) 50 ≡ true

  pub pinned_client-Pinned :
      (store : StoreData) (s : Machine) (client : Client) (rooms : List String)
      → (pinned_client p request store s).0 ≡ ok (client, rooms)
      → Pinned store client rooms
  unfolding pinned_client pure
  pinned_client-Pinned store s client rooms h =
      let usable = Splits-bind _ _ s h in
      let found = Splits-bind _ _ _ usable.second in
      let fresh = Splits-bind _ _ _ found.second in
      let alone = Splits-bind _ _ _ fresh.second in
      let one = Splits-bind _ _ _ alone.second in
      let capable = Splits-bind _ _ _ one.second in
      let live = Splits-bind _ _ _ capable.second in
      let listed = Splits-bind _ _ _ live.second in
      let room = Splits-bind _ _ _ listed.second in
      let end : ◌≡◌ {A = Checked (Client × List String)} (ok (one.value, listed.value))
          (ok (client, rooms)) =
        room.second in
      let same_client : one.value ≡ client = cc end in
      let same_rooms : listed.value ≡ rooms = cc end in
      record {
        only = single-eq-ok _ (lift-eq-ok _ _ one.first) ∙ ap (λ c. c ∷ []) same_client;
        held =
            ap (λ c. c.rooms) (sym same_client)
            ∙ room_list-eq-some _ (or_throw-eq-ok _ _ _ listed.first)
            ∙ ap texts same_rooms;
        below = subst (λ rs. ltb (length rs) 50 ≡ true) same_rooms (ensure-eq-ok _ _ _ room.first);
      }

all-push :
    (q : String → Bool) (xs : List String) (x : String)
    → all q xs ≡ true
    → q x ≡ true
    → all q (xs ++ x ∷ []) ≡ true
all-push q [] x h k = ground (arith, k)
all-push q (y ∷ xs) x h k = ground (arith, all-push q xs x, h, k)

length-push : (xs : List String) (x : String) → length (xs ++ x ∷ []) ≡ length xs + 1
length-push [] x = refl
length-push (y ∷ xs) x = ground (arith, length-push xs x)

-- A list of at most fifty boards has room for one more below fifty.
pushed-texts :
    (v : Value) (rooms : List String) (board_id : String)
    → v ≡ texts rooms
    → ltb (length rooms) 50 ≡ true
    → is_valid_room_id board_id ≡ true
    → texts_of is_valid_room_id 0 50 v ≡ true
    → texts_of is_valid_room_id 0 50 (push_room board_id v) ≡ true
pushed-texts v rooms board_id h below valid k = rw h (
    ground (
      arith,
      all-push is_valid_room_id rooms board_id,
      length-push rooms board_id,
      below,
      valid,
      subst (λ w. texts_of is_valid_room_id 0 50 w ≡ true) h k,
    ))

with_room-schema :
    (c : Client) (rooms : List String) (board_id : String)
    → c.rooms ≡ texts rooms
    → ltb (length rooms) 50 ≡ true
    → is_valid_room_id board_id ≡ true
    → account_client_schema c ≡ true
    → account_client_schema (with_room board_id c) ≡ true
unfolding account_client_schema
with_room-schema c rooms board_id h below valid k =
    ground (arith, k, pushed-texts c.rooms rooms board_id h below valid)

first-passes : (q : Client → Bool) (c : Client) → all q (c ∷ []) ≡ true → q c ≡ true
first-passes q c h = ground (arith, h)

module _ (p : TokenPlatform) (request : GrantRequest) where
  pub granted_store-Sound :
      (store : StoreData) (client : Client) (rooms : List String) (board_id : String)
      → Pinned p request store client rooms
      → is_valid_room_id board_id ≡ true
      → Sound store (granted_store p request board_id store)
  unfolding granted_store all_clients account_clients_of
  granted_store-Sound store client rooms board_id pinned valid w =
      let q = is_pinned p request in
      let f = update_where q (with_room board_id) in
      let ys = account_clients_of store in
      let accounts : account_clients_of (granted_store p request board_id store) ≡ f ys =
        edit_accounts-clients f store.account_clients refl in
      let passes : account_client_schema client ≡ true = first-passes account_client_schema client (
        subst (λ cs. all account_client_schema cs ≡ true) pinned.only
          (all-filter q account_client_schema ys w.accounts)) in
      record {
        listed = w.listed;
        unique = rw accounts (
            Unique-renamed (λ cs. cs) f (clients_of store) ys refl
              (names-update (with_room board_id) q (λ c. refl) ys) w.unique);
        clients = w.clients;
        client_count = w.client_count;
        accounts = rw accounts (
            all-update-one (with_room board_id) q account_client_schema client
              (with_room-schema client rooms board_id pinned.held pinned.below valid passes) ys
              pinned.only w.accounts);
        account_count = rw (accounts, length-update (with_room board_id) q ys) w.account_count;
      }
