-- ===== src/Ltlib/Started.antt =====
-- Where the slave process of a client cannot be started.
