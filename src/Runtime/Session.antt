-- ===== src/Runtime/Session.antt =====
-- internal/runtime/session/manager.go. The manager's clock and its source of identifiers are
-- arguments of each method: `now`, and an identifier or none where the source fails.
pub mod ReadBack
pub mod Forking
pub mod Copying
use staging_platform.Base.{
  String, Bool, not, Option, none, some, if◌then◌else◌, str_eq, is_blank, trim_space,
}
use staging_platform.Json.{Fields, end, Codec}
use staging_platform.Result.{
  Result, ok, err, not_found, codec_failed, id_failed, rejected, or_err, refuse_if,
}
use staging_platform.Effect.{Effect, return, fail, reads, writes, transacts, or_undo, ◌>>=◌, ◌>>◌}
use staging_platform.Store.Records.{Time, SessionRecord, active, SessionSnapshot}
use staging_platform.Store.Tables.{Db}
use staging_platform.Store.Sessions.{create_session, get_session}
use staging_platform.Store.Snapshots.{
  get_session_snapshot, update_session, put_session_snapshot, append_session_snapshot,
}
use staging_platform.Store.Deletion.{delete_session}

unfoldable pub new_session : String → String → Time → SessionRecord
new_session name parent now = record {
  session_name = name;
  parent_session_name = parent;
  current_snapshot_id = "";
  status = active;
  created_at = now;
  updated_at = now;
}

-- `Create`
unfoldable pub create : String → Time → Effect SessionRecord
unfolding new_session
create session_name now = do
  let session = new_session (trim_space session_name) "" now
  writes λ db. create_session db session
  return session

-- `Destroy`
unfoldable pub destroy : String → Effect (Unit {0})
destroy session_name = writes λ db. delete_session db (trim_space session_name)

module _ (c : Codec) where
  -- `cloneState`: encoded, and decoded again
  unfoldable pub clone_state : Option Fields → Result (Option Fields)
  clone_state none = ok (some end)
  clone_state (some o) = elim (c.marshal o) [
    | none ↦ err codec_failed
    | some t ↦ or_err (c.unmarshal t) codec_failed
  ]

  -- The part of `Fork` that follows the child's creation: the parent's snapshot is copied.
  unfoldable pub copy_snapshot :
      SessionRecord → SessionRecord → Option String → Time → Effect SessionRecord
  copy_snapshot parent child new_id now = do
    parent_snapshot ← reads λ db. get_session_snapshot c db parent.current_snapshot_id
    snapshot_id ← reads λ _. or_err new_id id_failed
    state ← reads λ _. clone_state parent_snapshot.state
    let child_snapshot : SessionSnapshot = record {
      snapshot_id = snapshot_id;
      session_name = child.session_name;
      parent_snapshot_id = parent_snapshot.snapshot_id;
      source_run_id = parent_snapshot.source_run_id;
      state = state;
      created_at = now;
    }
    writes λ db. put_session_snapshot c db child_snapshot
    let pointed = record child { current_snapshot_id = snapshot_id }
    writes λ db. update_session c db pointed
    return pointed

  -- `Fork`: each error after the child's creation deletes the child.
  unfoldable pub fork : String → String → Option String → Time → Effect SessionRecord
  unfolding new_session
  fork parent_name child_name new_id now = do
    parent ← reads λ db. get_session db (trim_space parent_name)
    let child = new_session (trim_space child_name) parent.session_name now
    writes λ db. create_session db child
    if is_blank parent.current_snapshot_id
        then return child
        else or_undo (copy_snapshot parent child new_id now)
            (λ db. delete_session db child.session_name)

  unfoldable pub snapshot : String → Option Fields → Option String → Time → Effect SessionSnapshot
  snapshot session_name state new_id now = do
    snapshot_id ← reads λ _. or_err new_id id_failed
    cloned ← reads λ _. clone_state state
    let s : SessionSnapshot = record {
      snapshot_id = snapshot_id;
      session_name = trim_space session_name;
      parent_snapshot_id = "";
      source_run_id = "";
      state = cloned;
      created_at = now;
    }
    transacts λ db. append_session_snapshot c db s now

  unfoldable pub restore : String → String → Time → Effect SessionRecord
  restore session_name snapshot_id now = do
    session ← reads λ db. get_session db (trim_space session_name)
    s ← reads λ db. get_session_snapshot c db (trim_space snapshot_id)
    reads λ _.
        refuse_if (not (str_eq s.session_name session.session_name))
          (rejected "snapshot belongs to another session")
    let restored = record session { current_snapshot_id = s.snapshot_id; updated_at = now }
    writes λ db. update_session c db restored
    return restored

  unfoldable pub current_snapshot : String → Effect SessionSnapshot
  current_snapshot session_name = do
    session ← reads λ db. get_session db (trim_space session_name)
    if is_blank session.current_snapshot_id
        then fail not_found
        else reads λ db. get_session_snapshot c db session.current_snapshot_id
