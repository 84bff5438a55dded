-- ===== src/Runtime/Prepare/Tests.antt =====
-- What `npm install` becomes on a machine with one installed Node.js.
