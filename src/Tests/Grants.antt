-- ===== src/Tests/Grants.antt =====
-- Examples for the path grants, src-tauri/src/path_grant.rs.
use Prim.Native.String.{String}
use cubby_clipboard.Prelude.{
  arith, ℕ, suc, ◌≡◌, ◌≢◌, refl, ◌↔◌, ◌⊎◌, Bool, true, false, List, [], ◌∷◌, some,
}
use cubby_clipboard.PathGrant.{
  PathGrantTable, new_table, grant, authorize, set_grant, drop_grants_if_settings_window,
  backup_save, backup_open, ditto_open, ok, export_granted_backup, import_granted_backup,
  import_granted_ditto,
}
use cubby_clipboard.PathGrant.Sessions.{
  IsFresh, authorize_iff, Event, picks, closes, table_after, WasPicked, ipc_needs_pick,
}

abbrev picked : PathGrantTable
picked = set_grant new_table backup_open (some (record { path = "a.cubby"; issued_at = 10 }))

authorize_iff_example : ((authorize picked backup_open "a.cubby" true 20).1 ≡ ok tt) ↔ (
    ◌≢◌ {A = String} "a.cubby" ""
    × (picked.poisoned ≡ false)
    × IsFresh picked backup_open "a.cubby" 20)
authorize_iff_example = authorize_iff picked backup_open "a.cubby" true 20

picked_ok : (consume : Bool) → (authorize picked backup_open "a.cubby" consume 20).1 ≡ ok tt
unfolding authorize new_table
picked_ok true = refl
picked_ok false = refl

picked-IsFresh : IsFresh picked backup_open "a.cubby" 30
unfolding new_table
picked-IsFresh = record {
  holder = record { path = "a.cubby"; issued_at = 10 };
  held = refl;
  same_path = refl;
  not_future = omega arith;
  not_old = omega arith;
}

abbrev events : List (ℕ × Event)
events =
    (12, picks backup_open "a.cubby") ∷ (5, closes "settings") ∷ (1, picks ditto_open "d.db") ∷ []

events_ok : (authorize (table_after events) backup_open "a.cubby" true 20).1 ≡ ok tt
unfolding authorize grant new_table drop_grants_if_settings_window
events_ok = refl

abbrev count_call : ℕ → ℕ × Bool
count_call n = (suc n, true)

abbrev count_run : Bool → ℕ → ℕ × Bool
count_run dry_run n = (suc n, dry_run)

ipc_needs_pick_example :
    (((export_granted_backup count_call (table_after events) 0 "a.cubby" 20).1 ≡ 0)
      ⊎ WasPicked backup_save "a.cubby" events)
    × (((import_granted_backup count_run (table_after events) 0 "a.cubby" true 20).1 ≡ 0)
        ⊎ WasPicked backup_open "a.cubby" events)
    × (((import_granted_ditto count_run (table_after events) 0 "a.cubby" true 20).1 ≡ 0)
        ⊎ WasPicked ditto_open "a.cubby" events)
ipc_needs_pick_example = ipc_needs_pick events count_call count_run count_run 0 "a.cubby" true 20
