-- ===== src/DataPlane/EgressPool.antt =====
-- up-streamer/src/data_plane/egress_pool.rs: one worker for each egress transport, with a reference
-- count. `next_channel` names the channels that `broadcast::channel` makes, for a queue size that is
-- not zero, and `build_uuid` stands for `UUID::build` at each of them.
pub mod RefCount
use up_streamer_rust.Base.{
  ℕ, ◌+◌, Bool, none, some, [], if◌then◌else◌, ◌==◌, nat_equality, string_equality, option_equality,
  pair_equality,
}
use up_streamer_rust.Base.Map.{Map, get, insert, remove}
use up_streamer_rust.Base.Usize.{increment, decrement}
use up_streamer_rust.DataPlane.Transport.{TransportIdentityKey, transport_identity_key_equality}
use up_streamer_rust.Base.Bytes.{Text}
use up_streamer_rust.DataPlane.EgressWorker.{EgressRouteWorker}
use up_streamer_rust.DataPlane.EgressWorker

pub record RuntimeOps : Type 0 where
  pub has_runtime : Bool
  pub build_uuid : ℕ → Text

pub record EgressRouteBinding : Type 0 where
  pub ref_count : ℕ
  pub worker : EgressRouteWorker
  pub sender : ℕ

pub record EgressRoutePool : Type 0 where
  pub message_queue_size : ℕ
  pub workers : Map TransportIdentityKey EgressRouteBinding
  pub next_channel : ℕ

unfoldable pub new : ℕ → EgressRoutePool
new message_queue_size = record {
  message_queue_size = message_queue_size;
  workers = [];
  next_channel = 0;
}

module _ ⦃e : RuntimeOps⦄ where
  unfoldable pub attach_route : EgressRoutePool → ℕ → ℕ × EgressRoutePool
  attach_route p out_transport =
      let key : TransportIdentityKey = record { transport = out_transport } in
      elim (get key p.workers) [
        | some slot ↦ (
          slot.sender,
          record p {
            workers = insert key (record slot { ref_count = increment slot.ref_count }) p.workers;
          },
        )
        | none ↦ (
          p.next_channel,
          record p {
            workers =
                insert key
                  (record {
                    ref_count = 1;
                    worker = EgressWorker.new e.has_runtime (e.build_uuid p.next_channel);
                    sender = p.next_channel;
                  })
                  p.workers;
            next_channel = p.next_channel + 1;
          },
        )
      ]

unfoldable pub detach_route : EgressRoutePool → ℕ → EgressRoutePool
detach_route p out_transport =
    let key : TransportIdentityKey = record { transport = out_transport } in
    elim (get key p.workers) [
      | none ↦ p
      | some slot ↦
          let active_num = decrement slot.ref_count in
          record p {
            workers =
                if active_num == 0
                then remove key p.workers
                else insert key (record slot { ref_count = active_num }) p.workers;
          }
    ]
