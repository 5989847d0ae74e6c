-- ===== src/Trap.antt =====
-- internal/trap: the connection limiter and the parsers of the traps' protocols.
pub mod Limiter
pub mod Redact
pub mod Session
pub mod LineReader
pub mod Proxy
pub mod Server
pub mod Telnet
pub mod Ber
pub mod Snmp
pub mod Dns
pub mod Modbus
pub mod Mqtt
pub mod Minecraft
pub mod Ntp
pub mod Pacing
pub mod S7comm
pub mod Tls
pub mod RateLimit
pub mod Dialog
pub mod Login
pub mod Imap
pub mod Irc
pub mod Smtp
pub mod Redis
pub mod Socks5
pub mod Ldap
