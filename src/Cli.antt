-- ===== src/Cli.antt =====
-- src/memgw/cli.py: `Doctor` has the checks of `doctor` and the command `migrate`; `Reports` holds
-- proofs.
pub mod Doctor
pub mod Reports
