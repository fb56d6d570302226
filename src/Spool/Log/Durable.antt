-- ===== src/Spool/Log/Durable.antt =====
-- What it means that a reboot finds the spool of spool/flash.rs as it is in memory.
use sleep_environment_monito.Prelude.{ℕ, ◌≤◌, ◌≡◌, List, length}
use sleep_environment_monito.Flash.{FlashStorage, IsNor}
use sleep_environment_monito.Queue.Refine.{Stores}
use sleep_environment_monito.Spool.Backed
use sleep_environment_monito.Spool.Backed.{BackedSpool, Outcome, entry_buffer}
use sleep_environment_monito.Spool.Log.{Entry, replay, start, after}
use sleep_environment_monito.Spool.Log.Sequences.{NoWrap}
use sleep_environment_monito.Spool.Log.Recovery.{log_bytes}
use sleep_environment_monito.Spool.Log.Write.{Holds}

module _ {S : Type 0} (F : FlashStorage S) (IsValid : S → Type 0) (bytes : S → List ℕ)
    (nor : IsNor F IsValid bytes) (capacity size : ℕ) (small : size ≤ 490) where
  -- The spool in memory is what reading the flash back would give.
  pub record IsDurable (b : BackedSpool) (s : S) (log : List Entry) : Type 0 where
    pub held : Holds F IsValid bytes nor size small s log
    pub offset : b.write_offset ≡ length (log_bytes log)
    pub queue : Stores capacity b.spool.queue (replay capacity start log).pending
    pub sequence : b.spool.next_sequence ≡ after (replay capacity start log).seen
    pub no_wrap : NoWrap (replay capacity start log).seen
