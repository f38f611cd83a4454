-- ===== src/Engine/Tasks.antt =====
-- src/engine/mod.rs: the tasks of the workers, and the channel that carries them.
use syncgdrive.Base.{ℕ, zero, suc, Bool, true, false, List, [], ◌∷◌, ◌++◌, Result, err}
use syncgdrive.Paths.{FilePath}

pub data Task : Type 0 where
  sync_file : FilePath → Task
  delete : FilePath → Task
  rename : FilePath → FilePath → Task

-- The places of the channel of tasks.
abbrev pub capacity : ℕ
capacity = 1024

-- The sending end: what has been sent, and how many more tasks it accepts. After them the receiver
-- is gone, or, with `is_full`, every place is taken and nobody receives: the loop that receives is
-- the one that sends, in a flush or a scan, so `room` is then the number of places that were free.
pub record Channel : Type 0 where
  pub sent : List Task
  pub room : ℕ
  pub is_full : Bool

-- The channel of `mpsc::channel::<Task>(1024)`, while its receiver does not receive.
abbrev pub channel : Channel
channel = record { sent = []; room = capacity; is_full = true }

abbrev send_at : ℕ → Task → Channel → Bool × Channel
send_at zero task ch = (false, ch)
send_at (suc room) task ch = (true, record ch { sent = ch.sent ++ task ∷ []; room = room })

-- `task_tx.send(task).await`: false where the receiver is gone, or where the wait for a place has no
-- end.
unfoldable pub send : Task → Channel → Bool × Channel
send task ch = send_at ch.room task ch

-- What a sender returns whose task was not accepted, from what it returns where the receiver is
-- gone. An error without a message is a call that does not return.
abbrev pub unsent : Channel → Result (Unit {0}) → Result (Unit {0})
unsent ch gone = elim ch.is_full [ true ↦ err [] | false ↦ gone ]
