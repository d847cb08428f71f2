-- ===== src/Scheduler/Cron/Facts.antt =====
-- What the parsed fields of a cron expression hold.
