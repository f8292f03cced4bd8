-- ===== src/Cli.antt =====
-- The daemon's command line: src/cmd/mactelnet-proxy.
pub mod Serve
pub mod ServeLaws
pub mod Mactelnet
pub mod MactelnetLaws
pub mod Mndp
pub mod MndpLaws
mod Examples
