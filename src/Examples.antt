-- ===== src/Examples.antt =====
-- Concrete runs: each theorem with hypotheses, applied to data on which they hold.
mod Alerts
mod Dialogues
mod Settings
mod Sessions
mod Tables
mod Traps
mod Work
use ran.Alert.Netip.{Netip}
use ran.Base.{Bytes, bytes_eq, codes, if◌then◌else◌, none, some, []}

-- Addresses as their text: anything but the empty text is one, and there are no zones.
abbrev pub net : Netip
net = record {
  Addr = Bytes;
  Prefix = Bytes;
  parse_addr = λ b. if bytes_eq b [] then none else some b;
  zone = λ a. [];
  without_zone = λ a. a;
  unmap = λ a. a;
  to_string = λ a. a;
  contains = bytes_eq;
}

abbrev pub visitor : Bytes
visitor = codes "9.8.7.6"

abbrev pub other : Bytes
other = codes "9.8.7.5"
