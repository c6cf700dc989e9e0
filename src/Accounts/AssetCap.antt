-- ===== src/Accounts/AssetCap.antt =====
-- `registerBoardAssetIfUnderCap` of server/auth-db.ts: the cap on a board's assets of one kind.
use collaborative_ai_whitebo.Prelude.{
  ℕ, suc, ◌≤◌, String, Bool, true, ◌&&◌, List, [], ◌∷◌, ◌++◌, inl, inr, arith, leb, length, filter,
  Bool-cases, ◌==◌,
}
use collaborative_ai_whitebo.Exec.{
  Result, ok, err, or_rollback, continue, pure, gets, modify, ensure, transaction, ◌>>=◌, ◌>>◌,
}
use collaborative_ai_whitebo.Accounts.Types.{AuthFailure, BoardAsset}
use collaborative_ai_whitebo.Accounts.Database.{AuthDatabase, Statement}
use collaborative_ai_whitebo.Accounts.Input.{codes}
use collaborative_ai_whitebo.Accounts.Ledger.{
  is_like, register_board_asset, count_board_assets_with_prefix, register_board_asset_if_under_cap,
}

length-filter-snoc :
    {A : Type 0} (p : A → Bool) (x : A) (xs : List A)
    → length (filter p (xs ++ x ∷ [])) ≤ suc (length (filter p xs))
length-filter-snoc p x [] = ground arith
length-filter-snoc p x (y ∷ ys) = ground (arith, length-filter-snoc p x ys)

one_more :
    (board_id upload_id prefix : String) (db : AuthDatabase)
    → count_board_assets_with_prefix board_id prefix (register_board_asset board_id upload_id db).1
      ≤ suc (count_board_assets_with_prefix board_id prefix db)
unfolding count_board_assets_with_prefix register_board_asset gets modify ensure ◌>>=◌
one_more board_id upload_id prefix db = ground (
  arith,
  length-filter-snoc
      (λ (a : BoardAsset). a.board_id == board_id && is_like (codes prefix) (codes a.upload_id))
      (record { upload_id = upload_id; board_id = board_id }) db.assets,
)

registered :
    (P : AuthDatabase → Type 0) (m : Statement Unit) (db : AuthDatabase)
    → P db
    → P (m db).1
    → P (transaction (do m; pure true) db).1
unfolding transaction pure ◌>>=◌
registered P m db before after = go (m db).0 (m db).1 after
  where
    go :
        (r : Result AuthFailure Unit) (t : AuthDatabase)
        → P t
        → P (or_rollback db (continue r (λ _. pure true) t)).1
    go (ok u) t h = h
    go (err e) t h = before

-- Registering an asset, refused or not, keeps a board that holds at most the cap at most at the cap.
pub register_board_asset_if_under_cap_lem :
    (board_id upload_id prefix : String) (max_count : ℕ) (db : AuthDatabase)
    → count_board_assets_with_prefix board_id prefix db ≤ max_count
    → count_board_assets_with_prefix board_id prefix
        (register_board_asset_if_under_cap board_id upload_id prefix max_count db).1
      ≤ max_count
unfolding register_board_asset_if_under_cap transaction gets pure ◌>>=◌
register_board_asset_if_under_cap_lem board_id upload_id prefix max_count db held =
    elim (Bool-cases (leb max_count (count_board_assets_with_prefix board_id prefix db))) [
      | inl full ↦ rw full held
      | inr room ↦ rw room (
          registered (λ t. count_board_assets_with_prefix board_id prefix t ≤ max_count)
            (register_board_asset board_id upload_id) db held
            (ground (arith, one_more board_id upload_id prefix db, room)))
    ]
