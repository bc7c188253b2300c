-- ===== src/Hosting.antt =====
-- What lib/application-stage.ts puts together, the stacks around the cluster, and how
-- scripts/deploy-spa.sh builds the application with their outputs.
pub mod Cognito
pub mod Network
pub mod Monitoring
pub mod Application
pub mod Outputs
pub mod Publish
