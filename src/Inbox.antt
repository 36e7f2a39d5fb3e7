-- ===== src/Inbox.antt =====
-- src/web_config.rs: the options of a browser connection, its send budget and its inbox of received
-- packets. The largest packet of the netcode protocol is a parameter.
pub mod Window
mod Tests
use renet_cross.Prelude.{
  ℕ, ◌+◌, ◌-◌, Bool, true, false, ◌&&◌, ◌||◌, Option, some, none, List, [], ◌∷◌, ◌++◌, length, any,
  Result, ok, err, refuse, ◌>>◌, ltb, leb, ◌==◌, if◌then◌else◌, u64_add,
}

pub record IceServer : Type 0 where
  pub urls : List (List ℕ)
  pub username : Option (List ℕ)
  pub credential : Option (List ℕ)

pub data OptionsError : Type 0 where
  small_buffer empty_inbox empty_url : OptionsError

-- The options that `validate` reads.
pub record Options : Type 0 where
  pub ice_servers : List IceServer
  pub max_buffered_amount : ℕ
  pub max_inbox_packets : ℕ

pub record ClientStats : Type 0 where
  pub send_backpressure_drops : ℕ
  pub receive_overflow_drops : ℕ
  pub receive_invalid_size_drops : ℕ

pub record Inbox : Type 0 where
  pub packets : List (List ℕ)
  pub capacity : ℕ
  pub stats : ClientStats

pub fits_send_budget : ℕ → ℕ → ℕ → Bool
fits_send_budget buffered packet_len limit = leb packet_len (limit - buffered) && leb buffered limit

pub new : ℕ → Inbox
new capacity = record { packets = []; capacity = capacity; stats = no_drops }
  where
    no_drops : ClientStats
    no_drops = record {
      send_backpressure_drops = 0;
      receive_overflow_drops = 0;
      receive_invalid_size_drops = 0;
    }

is_empty {ℓ} : {A : Type ℓ} → List A → Bool
is_empty [] = true
is_empty (x ∷ xs) = false

-- `str::trim` is the standard library's: only whether a text is blank is used here.
pub validate : (blank : List ℕ → Bool) (max_packet : ℕ) → Options → Result OptionsError (Unit {0})
unfolding is_empty
validate blank max_packet o = do
  refuse (ltb o.max_buffered_amount max_packet) small_buffer
  refuse (o.max_inbox_packets == 0) empty_inbox
  refuse (any (λ s. is_empty s.urls || any blank s.urls) o.ice_servers) empty_url

pub accepts_size : ℕ → ℕ → Inbox → Inbox × Bool
accepts_size max_packet len i =
    if len == 0 || ltb max_packet len then (counted, false) else (i, true)
  where
    invalid : ClientStats
    invalid = record (i.stats) {
      receive_invalid_size_drops = u64_add i.stats.receive_invalid_size_drops 1;
    }

    counted : Inbox
    counted = record i { stats = invalid }

count_overflow : Inbox → Inbox
count_overflow i = record i { stats = overflowed }
  where
    overflowed : ClientStats
    overflowed = record (i.stats) {
      receive_overflow_drops = u64_add i.stats.receive_overflow_drops 1;
    }

-- `VecDeque::pop_front`, without the value.
tail : List (List ℕ) → List (List ℕ)
tail [] = []
tail (p ∷ ps) = ps

pub push : List ℕ → Inbox → Inbox
unfolding count_overflow tail
push packet i =
    if i.capacity == 0
    then count_overflow i
    else if length i.packets == i.capacity
    then (let full = count_overflow i in record full { packets = tail i.packets ++ packet ∷ [] })
    else record i { packets = i.packets ++ packet ∷ [] }

pub pop : Inbox → Inbox × Option (List ℕ)
pop i = elim i.packets [ [] ↦ (i, none) | p ∷ ps ↦ (record i { packets = ps }, some p) ]
