-- ===== src/Merge.antt =====
-- packages/cli/src/sync-store.ts, the part of `applyLocked` that decides between the state that a
-- record holds and one that a peer sends.
pub mod Order
use html_inbox.Common.{
  ℕ, Bool, true, false, not, ◌&&◌, ◌||◌, List, [], ◌∷◌, text_eq, ltb, leb, ◌==◌, if◌then◌else◌,
  Result, ok, err, ◌>>=◌, immutable_conflict, version_conflict,
}
use html_inbox.Model.{OriginState, is_live, is_deleted, same_liveness}
use html_inbox.Model.Codec.{same_immutable_descriptor}

-- Whether the held state stays or the incoming one is taken.
pub data Verdict : Type 0 where
  superseded accepted : Verdict

-- `state.version === record.version && (state.state !== record.state || state.signature !== …)`
unfoldable pub conflicts : OriginState → OriginState → Bool
conflicts held state =
    (state.version == held.version)
    && (not (same_liveness state.state held.state) || not (text_eq state.signature held.signature))

-- `state.version < record.version && (record.state === "deleted" || state.state !== "deleted")`
unfoldable pub is_older : OriginState → OriginState → Bool
is_older held state =
    ltb state.version held.version && (is_deleted held.state || not (is_deleted state.state))

unfoldable pub verdict : OriginState → OriginState → Result Verdict
unfolding conflicts is_older
verdict held state =
    if not (same_immutable_descriptor held.unsigned state.unsigned)
    then err immutable_conflict
    else if is_deleted held.state && is_live state.state
    then ok superseded
    else if conflicts held state
    then err version_conflict
    else if is_older held state
    then ok superseded
    else ok accepted

-- The state that the record holds afterwards.
abbrev pub winner : OriginState → OriginState → Verdict → OriginState
winner held state superseded = held
winner held state accepted = state

unfoldable pub merge : OriginState → OriginState → Result OriginState
merge held state = verdict held state >>= λ v. ok (winner held state v)

-- A record that receives one state after another.
unfoldable pub merge_all : OriginState → List OriginState → Result OriginState
unfolding merge
merge_all held [] = ok held
merge_all held (state ∷ more) = merge held state >>= λ next. merge_all next more
