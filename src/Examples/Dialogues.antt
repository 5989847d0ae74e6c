-- ===== src/Examples/Dialogues.antt =====
-- The login traps, Redis, SOCKS5 and LDAP on concrete connections.
use ran.Base.{
  ◌≤◌, none, some, List, [], ◌∷◌, ◌++◌, Bytes, codes, All, ◌≡◌, refl, arith, if◌then◌else◌, ◌-◌,
  ◌^◌,
}
use ran.Examples.Sessions.{ascii}
use ran.Trap.Dialog.{Act, write, ops_of, outcome}
use ran.Trap.Irc as Irc
use ran.Trap.Irc.Welcome as Welcome
use ran.Trap.Ldap as Ldap
use ran.Trap.Ldap.Bind as Bind
use ran.Trap.Ldap.Ident as Ident
use ran.Trap.Login as Login
use ran.Trap.Login.Captured as Captured
use ran.Trap.Redis as Redis
use ran.Trap.Redis.RoundTrip as RedisRoundTrip
use ran.Trap.Redis.Total as RedisTotal
use ran.Trap.Session.{failed}
use ran.Trap.Smtp as Smtp
use ran.Trap.Smtp.Denied as Denied
use ran.Trap.Socks5 as Socks5
use ran.Trap.Socks5.Capture as Socks5Capture

abbrev login_lines : List Bytes
login_lines = codes "USER root" ∷ codes "PASS hunter2" ∷ codes "pass 1234" ∷ codes "QUIT" ∷ []

login_handle-captures_example :
    (acts : List Act) × (Login.login_handle ascii Login.ftp_replies none login_lines none
      ≡ some acts)
    × (ops_of acts
        ≡ Captured.attempts ascii Login.ftp_replies [] login_lines
          ++ (if Captured.quits ascii Login.ftp_replies login_lines
              then []
              else ops_of (outcome none)))
login_handle-captures_example =
    Captured.login_handle-captures ascii Login.ftp_replies login_lines none

abbrev irc_lines : List Bytes
irc_lines = codes "NICK bot" ∷ codes "USER a b c d" ∷ codes "USER a b c d" ∷ codes "JOIN #x" ∷ []

irc_handle-welcomes_example :
    (acts : List Act) × (Irc.irc_handle ascii (codes "9.8.7.6") irc_lines none ≡ some acts)
    × (Welcome.welcomes acts ≤ 1)
irc_handle-welcomes_example = Welcome.irc_handle-welcomes ascii (codes "9.8.7.6") irc_lines none

abbrev smtp_lines : List Bytes
smtp_lines = codes "EHLO me" ∷ codes "AUTH LOGIN" ∷ codes "cm9vdA==" ∷ codes "cm9vdA==" ∷ []

smtp_handle-denies_example :
    (acts : List Act) × (Smtp.smtp_handle ascii
        (λ b. some b)
        (codes "220 mail")
        (codes "mail")
        none
        smtp_lines
        none
      ≡ some (write (codes "220 mail" ++ codes "\r\n") ∷ acts))
    × All Denied.IsDenial acts
smtp_handle-denies_example =
    Denied.smtp_handle-denies ascii (λ b. some b) (codes "220 mail") (codes "mail") smtp_lines none

abbrev redis_args : List Bytes
redis_args = codes "AUTH" ∷ codes "hunter2" ∷ []

read_redis_command-write_command_example :
    Redis.read_redis_command failed (RedisRoundTrip.write_command redis_args (codes "PING\r\n"))
    ≡ Redis.got redis_args (codes "PING\r\n")
read_redis_command-write_command_example =
    RedisRoundTrip.read_redis_command-write_command failed redis_args (codes "PING\r\n")
      (omega arith) (omega arith, (omega arith, tt))

redis_handle-Ends_example :
    (acts : List Act) × (Redis.redis_handle ascii failed (codes "PING\r\nQUIT\r\n") ≡ some acts)
redis_handle-Ends_example = RedisTotal.redis_handle-Ends failed ascii (codes "PING\r\nQUIT\r\n")

socks5_handle-captures_example :
    Socks5.socks5_handle failed
      (λ b. b)
      (5 ∷ 2 ∷ 0 ∷ 2 ∷ 1 ∷ 4 ∷ codes "root" ++ 4 ∷ codes "1234" ++ codes "more")
    ≡ write (5 ∷ 2 ∷ []) ∷ Socks5.attempt_acts (codes "root") (codes "1234")
      ++ write (1 ∷ 1 ∷ []) ∷ []
unfolding Socks5.any_eq
socks5_handle-captures_example =
    Socks5Capture.socks5_handle-captures failed (λ b. b) (0 ∷ 2 ∷ []) 1 (codes "root")
      (codes "1234") (codes "more") refl

ber_read_integer-ber_int64_example :
    Ldap.ber_read_integer (Ldap.ber_int64 2 (2 ^ 64 - 300) ++ 7 ∷ []) ≡ some (2 ^ 64 - 300, 7 ∷ [])
ber_read_integer-ber_int64_example =
    Ident.ber_read_integer-ber_int64 (2 ^ 64 - 300) (7 ∷ []) (omega arith)
