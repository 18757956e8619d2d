-- ===== src/Email.antt =====
-- Templated mail: template/src/app/email. A message is rendered by send.py and templating.py, and
-- handed to the adapter that provider.py selects. The template engine, the SMTP server and the SES
-- API are arguments.
pub mod Ports
pub mod Templating
pub mod Adapters
pub mod Provider
pub mod Fixtures
mod Tests
