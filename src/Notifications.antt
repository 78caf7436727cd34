-- ===== src/Notifications.antt =====
-- shared/procuresignal/notifications: alerts that are owed to the members of an organization.
pub mod Outbox
pub mod Rules
