-- ===== src/Ssh.antt =====
-- The SSH front end: src/internal/sshserver.
pub mod Command
pub mod Prompt
pub mod Channel
pub mod Keys
pub mod Files
pub mod Server
pub mod Lifecycle
pub mod LifecycleLaws
pub mod Exec
pub mod ExecMactelnet
pub mod ExecMndp
pub mod Ifaces
pub mod IfaceTable
pub mod IfaceTableLaws
pub mod VlanFile
pub mod ServerLaws
pub mod ReloadLaws
pub mod ExecMactelnetLaws
pub mod Engines
pub mod EnginesLaws
pub mod CommandRoundTrip
pub mod PromptLaws
pub mod ChannelLaws
pub mod KeysLaws
mod Examples
mod ExecExamples
mod ServerExamples
mod LifecycleExamples
