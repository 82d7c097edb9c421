-- ===== src/Expr.antt =====
-- internal/applets/shellutils/expr/expr.go: evaluate expressions.
pub mod Operators
pub mod Parser
mod Tests
