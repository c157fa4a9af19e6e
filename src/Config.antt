-- ===== src/Config.antt =====
-- app/settings_rules.py: the settings of the deployment, one variable to a line of .env.
pub mod Rules
pub mod EnvFile
