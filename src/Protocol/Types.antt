-- ===== src/Protocol/Types.antt =====
-- probes/app-server-ts: the types of the messages, by subject.
pub mod Envelopes
pub mod Account
pub mod Apps
pub mod Basics
pub mod Config
pub mod ItemsBase
pub mod Items
pub mod Mcp
pub mod Realtime
pub mod Threads
pub mod Turns
pub mod AccountState
pub mod BasicRecords
pub mod Approvals
pub mod ItemRecords
pub mod ThreadRecords
pub mod TurnInputs
pub mod Permissions
pub mod ThreadItems
pub mod ThreadSettings
pub mod ServerRequests
pub mod ThreadPages
pub mod TurnRecords
pub mod ThreadResponses
pub mod ServerNotifications
pub mod ConfigData
pub mod AccountData
pub mod AppsData
pub mod BasicsDataBase
pub mod BasicsData
pub mod ItemsData
pub mod McpData
pub mod ThreadsData
pub mod TurnsData
pub mod CompositesBase
pub mod Composites
pub mod ConfigReplies
pub mod AccountRequests
pub mod AppsRequests
pub mod BasicsRequests
pub mod ConfigRequests
pub mod ItemsRequests
pub mod McpRequests
pub mod RealtimeData
pub mod RealtimeRequests
pub mod ThreadsRequests
pub mod TurnsRequests
pub mod ClientRequests
pub mod BasicsReplies
pub mod ThreadsReplies
pub mod AccountReplies
pub mod AppsReplies
pub mod ItemsReplies
pub mod McpReplies
pub mod RealtimeReplies
pub mod TurnsReplies
