-- ===== src/Ssh/Packet/Parser/Queue.antt =====
-- The packet parser over one flat queue of bytes: what a parser that never had to keep chunks would
-- do. It is the specification that `Refine` compares worker/src/webssh/ssh/packet.ts with.
use cf_workers_vpsmonitor.Common.{ℕ, Option, none, some, length, take, drop, leb, if◌then◌else◌, ok}
use cf_workers_vpsmonitor.Ssh.Wire.{Bytes}
use cf_workers_vpsmonitor.Ssh.Packet.Buffer.{next_sequence_number}
use cf_workers_vpsmonitor.Ssh.Packet.Parser.{BufferOps}

pub record Queue : Type 0 where
  pub bytes : Bytes
  pub seq_num : ℕ

abbrev pub peek_queue : ℕ → Queue → Option Bytes
peek_queue n q = if leb n (length q.bytes) then some (take n q.bytes) else none

abbrev pub read_queue : ℕ → Queue → Queue
read_queue n q = if leb n (length q.bytes) then record q { bytes = drop n q.bytes } else q

abbrev pub queue_ops : BufferOps Queue
queue_ops = record {
  peek = λ n q. (ok (peek_queue n q), q);
  read = λ n q. (ok (peek_queue n q), read_queue n q);
  buffered = λ q. length q.bytes;
  seq = λ q. q.seq_num;
  advance = λ q. record q { seq_num = next_sequence_number q.seq_num };
}
