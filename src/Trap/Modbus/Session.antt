-- ===== src/Trap/Modbus/Session.antt =====
-- A Modbus session: the loop ends, and every request is answered with an exception.
use ran.Base.{length, ◌≡◌, All}
use ran.Trap.Modbus.{Action, logged, logged_payload, alerted, wrote, ended}
use ran.Trap.Modbus.Caps.{IsCapped}

-- What is written is a frame of nine bytes, and what is logged or alerted is capped.
abbrev pub IsOrderly : Action → Type 0
IsOrderly (logged attrs) = All IsCapped attrs
IsOrderly (logged_payload attrs) = All IsCapped attrs
IsOrderly (alerted attrs unknown) = All IsCapped attrs
IsOrderly (wrote frame) = length frame ≡ 9
IsOrderly ended = Unit
