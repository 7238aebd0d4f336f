-- ===== src/Mongo.antt =====
-- pkg/mongo: the migrations of a database.
pub mod Migration
