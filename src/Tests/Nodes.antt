-- ===== src/Tests/Nodes.antt =====
-- Runs of the registry, the packet interface and the runtime.
use fleece.Prelude.{ℕ, ◌≡◌, ◌≤◌, refl, true, false, List, [], ◌∷◌, none, some, length, arith}
use fleece.State.{ticks_since_last_write}
use fleece.Comms.{create_comms}
use fleece.Platform.{Function, register, resolve, find_function, free_index, function_index}
use fleece.Platform.Laws.{resolve-register}
use fleece.Runtime.{Runtime, source_for, max_fetch_keys}
use fleece.Runtime.Queue.{enqueue_tx, flush_pending_tx}
use fleece.Runtime.Queue.Laws.{flush_pending_tx-enqueue_tx}
use fleece.Runtime.Control.{control_frame, wanted_keys, value_req}
use fleece.Runtime.Control.Bounds.{control_frame_fits, control_buffer_size}
use fleece.Runtime.Loop.{send_resync_requests, probe_due}
use fleece.Runtime.Loop.Repairs.{send_resync_requests-busy}
use fleece.Tests.Samples.{always, pos_name, bat_name, two_bytes, small_store}

abbrev registry : List (Function ℕ)
registry =
    record { name = pos_name; handler = some 1; exists = true }
    ∷ record { name = []; handler = none; exists = false }
    ∷ []

resolve-register_example : resolve (register registry bat_name 2).0 bat_name ≡ some 2
unfolding register function_index find_function free_index
resolve-register_example = resolve-register registry bat_name 2 bat_name (omega arith) refl

-- A node with one frame in its queue, and an armed target that was heard two ticks ago.
abbrev busy_node : Runtime
busy_node = record {
  state_manager = small_store;
  comms = record {
    is_connected = true;
    is_initialized = true;
    stats = create_comms.stats;
    send_callback = true;
    receive_callback = true;
    poll_callback = false;
    outbox = [];
  };
  shared_gossip_watermark = 0;
  gossip_tick_count = 12;
  pending_tx =
      record { dest = source_for 9; bytes = two_bytes; ready_tick = 12; used = true }
      ∷ record { dest = []; bytes = []; ready_tick = 0; used = false }
      ∷ [];
  pending_tx_dropped = 0;
  resync_targets =
      record {
        node_id = 9;
        source = source_for 9;
        last_heard_tick = 10;
        need_shared = true;
        awaiting_index = false;
        last_index_req_tick = 0;
        exists = true;
      }
      ∷ [];
}

flush_pending_tx-enqueue_tx_example :
    (flush_pending_tx (enqueue_tx always busy_node (source_for 9) two_bytes)).comms
    ≡ (flush_pending_tx busy_node).comms
flush_pending_tx-enqueue_tx_example =
    flush_pending_tx-enqueue_tx always busy_node (source_for 9) two_bytes (omega arith)

control_frame_fits_example :
    length
      (control_frame small_store value_req (wanted_keys small_store max_fetch_keys ((5, 6) ∷ [])))
    ≤ control_buffer_size
control_frame_fits_example = control_frame_fits small_store ((5, 6) ∷ [])

send_resync_requests-busy_example :
    send_resync_requests always busy_node ≡ flush_pending_tx busy_node
unfolding ticks_since_last_write probe_due
send_resync_requests-busy_example =
    send_resync_requests-busy always busy_node (omega arith) (refl, tt)
