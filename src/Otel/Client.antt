-- ===== src/Otel/Client.antt =====
-- otel/cmd/client/main.go: the demo client. A float64 is of the type `V`, an int64 of a data point of the
-- type `I`.
pub mod Print
pub mod Run
pub mod Labels
pub mod Traffic
pub mod Decimal
pub mod Rows
pub mod Session
