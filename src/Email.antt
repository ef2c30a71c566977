-- ===== src/Email.antt =====
-- backend/app/email/senders.py: the message that a delivery sends, and what a sender did with it.
--
-- The SMTP server is outside: `deliver` takes the sender's outcome for the message as an argument.
use mad_devs_note_taker.Base.{ℕ}
use mad_devs_note_taker.Models.{Text}

pub record Email : Type 0 where
  pub recipient : Text
  pub subject : Text
  pub body : Text
  -- The parts of `<{id}.{cycle}@notetaker.local>`.
  pub message_id : ℕ × ℕ

-- How `send` ended: it returned, it raised a timeout or a disconnection, or another exception.
pub data Outcome : Type 0 where
  accepted interrupted refused : Outcome
