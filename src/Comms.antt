-- ===== src/Comms.antt =====
-- src/comms/fleece_comms.c: the packet interface of a node and its counters. A callback is code of the
-- host, of which the module only knows whether it is set; `outbox` is what the send callback was called
-- with, the last call first. The `data` of a packet is a list of bytes, and NULL the empty list.
use fleece.Prelude.{ℕ, Bool, true, false, not, ◌||◌, List, [], ◌∷◌, ◌==◌, if◌then◌else◌, length}
use fleece.Prelude.Sums.{add64}
use fleece.State.{Code, ok, failed}

-- FleeceCommsStats
pub record CommsStats : Type 0 where
  pub packets_sent : ℕ
  pub bytes_sent : ℕ
  pub packets_received : ℕ
  pub bytes_received : ℕ
  pub send_failures : ℕ
  pub recv_failures : ℕ

abbrev pub no_stats : CommsStats
no_stats = record {
  packets_sent = 0;
  bytes_sent = 0;
  packets_received = 0;
  bytes_received = 0;
  send_failures = 0;
  recv_failures = 0;
}

-- One call of the send callback.
pub record Packet : Type 0 where
  pub destination : List ℕ
  pub bytes : List ℕ

-- struct FleeceComms; the user data of a callback is part of the callback.
pub record Comms : Type 0 where
  pub is_connected : Bool
  pub is_initialized : Bool
  pub stats : CommsStats
  pub send_callback : Bool
  pub receive_callback : Bool
  pub poll_callback : Bool
  pub outbox : List Packet

-- fleece_comms_create, where the allocation succeeds
unfoldable pub create_comms : Comms
create_comms = record {
  is_connected = false;
  is_initialized = false;
  stats = no_stats;
  send_callback = false;
  receive_callback = false;
  poll_callback = false;
  outbox = [];
}

-- fleece_comms_initialize
unfoldable pub initialize : Comms → Comms
initialize c = record c { is_initialized = true; is_connected = true }

-- fleece_comms_close
unfoldable pub close : Comms → Comms
close c = if c.is_initialized then record c { is_initialized = false; is_connected = false } else c

-- fleece_comms_set_send_callback, set_receive_callback and set_poll_callback
unfoldable pub set_send_callback : Comms → Bool → Comms
set_send_callback c callback = record c { send_callback = callback }

unfoldable pub set_receive_callback : Comms → Bool → Comms
set_receive_callback c callback = record c { receive_callback = callback }

unfoldable pub set_poll_callback : Comms → Bool → Comms
set_poll_callback c callback = record c { poll_callback = callback }

abbrev pub no_bytes : List ℕ → Bool
no_bytes [] = true
no_bytes (x ∷ xs) = false

unfoldable pub count_sent : CommsStats → ℕ → CommsStats
count_sent s size = record s {
  packets_sent = add64 s.packets_sent 1;
  bytes_sent = add64 s.bytes_sent size;
}

unfoldable pub count_send_failure : CommsStats → CommsStats
count_send_failure s = record s { send_failures = add64 s.send_failures 1 }

unfoldable pub count_received : CommsStats → ℕ → CommsStats
count_received s size = record s {
  packets_received = add64 s.packets_received 1;
  bytes_received = add64 s.bytes_received size;
}

unfoldable pub count_recv_failure : CommsStats → CommsStats
count_recv_failure s = record s { recv_failures = add64 s.recv_failures 1 }

-- fleece_comms_send
unfoldable pub send : Comms → List ℕ → List ℕ → Comms × Code
send c destination bytes =
    if not c.is_initialized || no_bytes bytes
    then (record c { stats = count_send_failure c.stats }, failed)
    else let packet : Packet = record { destination = destination; bytes = bytes } in
      (
        record c {
          stats = count_sent c.stats (length bytes);
          outbox = if c.send_callback then packet ∷ c.outbox else c.outbox;
        },
        ok,
      )

-- fleece_comms_receive, which never has a packet and so counts a failure in either branch
unfoldable pub receive : Comms → Comms × Code
receive c =
    (record c { stats = count_recv_failure c.stats }, if c.is_initialized then ok else failed)

-- fleece_comms_notify_received
unfoldable pub notify_received : Comms → ℕ → Comms × Code
notify_received c size =
    if not c.is_initialized || size == 0
    then (record c { stats = count_recv_failure c.stats }, failed)
    else (record c { stats = count_received c.stats size }, ok)
