-- ===== src/Core/Replicate/Frame.antt =====
-- What `propose`, `heartbeat` and `initialize_leader_state` of crates/raftcore/src/lib.rs leave alone.
use ferris_ferry.Prelude.{ℕ, ◌≡◌, List, [], ◌∷◌, Option, ok, arith, insert}
use ferris_ferry.Types.{NodeId, Bytes, Action}
use ferris_ferry.Core.State.{RaftCore}
use ferris_ferry.Core.Replicate.{propose, heartbeat, track_peers, initialize_leader_state}

pub propose-frame :
    (c : RaftCore) (command : Bytes) {r : RaftCore × Option (List Action)}
    → propose c command ≡ ok r
    → r.0 ≡ record c { log = r.0.log; ticks_since_last_heartbeat = r.0.ticks_since_last_heartbeat }
unfolding propose
propose-frame c command h = ground arith

pub heartbeat-frame :
    (c : RaftCore) {r : RaftCore × List Action}
    → heartbeat c ≡ ok r
    → r.0 ≡ record c { ticks_since_last_heartbeat = r.0.ticks_since_last_heartbeat }
unfolding heartbeat
heartbeat-frame c h = ground arith

pub track_peers-frame :
    (next : ℕ) (ids : List NodeId) (c : RaftCore)
    → track_peers next ids c ≡ record c {
      next_index = (track_peers next ids c).next_index;
      match_index = (track_peers next ids c).match_index;
    }
unfolding track_peers
track_peers-frame next [] c = ground arith
track_peers-frame next (id ∷ ids) c = ground (
  arith,
  track_peers-frame next ids (record c {
    next_index = insert id next c.next_index;
    match_index = insert id 0 c.match_index;
  }),
)

pub initialize_leader_state-frame :
    (c : RaftCore) {r : RaftCore × Action}
    → initialize_leader_state c ≡ ok r
    → r.0 ≡ record c { log = r.0.log; next_index = r.0.next_index; match_index = r.0.match_index }
unfolding initialize_leader_state
initialize_leader_state-frame c h = grind (arith, track_peers-frame)
