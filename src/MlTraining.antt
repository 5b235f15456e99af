-- ===== src/MlTraining.antt =====
-- services/ml-training: the training jobs and their cancellation.
pub mod Trainer
pub mod Progress
pub mod Stopping
mod Tests
