-- ===== src/Stream/Factory/Reads.antt =====
-- A stream that open gave, read from its start.
use nanos3reader.Prelude.{◌<◌, ◌≡◌}
use nanos3reader.Text.{Text}
use nanos3reader.World.{World}
use nanos3reader.Stream.Buffer.{Buffer, new_buffer}
use nanos3reader.Stream.Buffer.Stands.{Stands}
use nanos3reader.Stream.Load.Ranges.{Honours, Honours}
use nanos3reader.Stream.Factory.{Factory, OpenedStream}

-- A stream for the target with nothing loaded.
pub record Fresh (f : Factory) (target : Text × Text) (o : OpenedStream) : Type 0 where
  pub bucket : o.object.bucket ≡ target.0
  pub key : o.object.key ≡ target.1
  pub ahead : 0 < o.object.read_ahead
  pub unread : o.buffer ≡ new_buffer f.cfg
